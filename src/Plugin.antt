-- ===== src/Plugin.antt =====
-- pkg/plugin: the hooks of a plugin and the manager that runs them. Plugins keep state of their
-- own; `W` is the state of all of them, and of what they reach.
pub mod Values
use smtpd.Prelude.{Bool, Option, none, some, List, [], ◌∷◌, ◌++◌}
use smtpd.Text.{Bytes}
use smtpd.Smtp.{Error}
use smtpd.Plugin.Values.{Results}

pub record SessionInfo : Type 0 where
  pub session_id : Bytes
  pub remote_addr : Bytes
  pub local_addr : Bytes
  pub is_tls : Bool
  pub helo_domain : Bytes

pub record MessageInfo : Type 0 where
  pub sender : Bytes  -- From
  pub recipients : List Bytes  -- To
  pub content : Bytes  -- Data

-- the values that a hook finds in its context; the session puts in the first three
pub record Context : Type 0 where
  pub session_id : Bytes
  pub remote_addr : Bytes
  pub sender : Option Bytes
  pub results : Results

pub record Plugin (W : Type 0) : Type 0 where
  pub on_connect : Context → SessionInfo → W → Option Error × W
  pub on_helo : Context → SessionInfo → Bytes → W → Option Error × W
  pub on_mail_from : Context → SessionInfo → Bytes → W → Option Error × W
  pub on_rcpt_to : Context → SessionInfo → Bytes → W → Option Error × W
  pub on_data : Context → SessionInfo → W → Option Error × W
  pub on_message : Context → SessionInfo → MessageInfo → W → Option Error × W
  pub on_disconnect : Context → SessionInfo → W → W

-- the loop of every hook: the first error ends it
unfoldable pub first_error :
    {W : Type 0} → (Plugin W → W → Option Error × W) → List (Plugin W) → W → Option Error × W
first_error hook [] w = (none, w)
first_error hook (p ∷ ps) w =
    let (e, w') = hook p w in elim e [ some x ↦ (some x, w') | none ↦ first_error hook ps w' ]

pub record Manager (W : Type 0) : Type 0 where
  pub plugins : List (Plugin W)

module _ {W : Type 0} where
  -- BasePlugin
  unfoldable pub base_plugin : Plugin W
  base_plugin = record {
    on_connect = λ c s w. (none, w);
    on_helo = λ c s d w. (none, w);
    on_mail_from = λ c s a w. (none, w);
    on_rcpt_to = λ c s a w. (none, w);
    on_data = λ c s w. (none, w);
    on_message = λ c s m w. (none, w);
    on_disconnect = λ c s w. w;
  }

  unfoldable pub new_manager : Manager W
  new_manager = record { plugins = [] }

  unfoldable pub register : Manager W → Plugin W → Manager W
  register m p = record { plugins = m.plugins ++ p ∷ [] }

  unfoldable pub execute_on_mail_from :
      Manager W → Context → SessionInfo → Bytes → W → Option Error × W
  unfolding first_error
  execute_on_mail_from m c s a = first_error (λ p. p.on_mail_from c s a) m.plugins

  unfoldable pub execute_on_rcpt_to :
      Manager W → Context → SessionInfo → Bytes → W → Option Error × W
  unfolding first_error
  execute_on_rcpt_to m c s a = first_error (λ p. p.on_rcpt_to c s a) m.plugins

  unfoldable pub execute_on_data : Manager W → Context → SessionInfo → W → Option Error × W
  unfolding first_error
  execute_on_data m c s = first_error (λ p. p.on_data c s) m.plugins

  unfoldable pub execute_on_message :
      Manager W → Context → SessionInfo → MessageInfo → W → Option Error × W
  unfolding first_error
  execute_on_message m c s i = first_error (λ p. p.on_message c s i) m.plugins

  unfoldable pub execute_on_connect : Manager W → Context → SessionInfo → W → Option Error × W
  unfolding first_error
  execute_on_connect m c s = first_error (λ p. p.on_connect c s) m.plugins

  unfoldable pub execute_on_helo : Manager W → Context → SessionInfo → Bytes → W → Option Error × W
  unfolding first_error
  execute_on_helo m c s d = first_error (λ p. p.on_helo c s d) m.plugins

  unfoldable pub disconnect_all : Context → SessionInfo → List (Plugin W) → W → W
  disconnect_all c s [] w = w
  disconnect_all c s (p ∷ ps) w = disconnect_all c s ps (p.on_disconnect c s w)

  unfoldable pub execute_on_disconnect : Manager W → Context → SessionInfo → W → W
  unfolding disconnect_all
  execute_on_disconnect m c s = disconnect_all c s m.plugins
