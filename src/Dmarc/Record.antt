-- ===== src/Dmarc/Record.antt =====
-- internal/plugins/dmarc/dmarc.go: the record that a domain publishes.
use smtpd.Prelude.{List, [], ◌∷◌, if◌then◌else◌}
use smtpd.Text.{Bytes, codes, to_lower, trim_space, bytes_eq, split, split_n}

pub record DmarcRecord : Type 0 where
  pub policy : Bytes
  pub subdomain_policy : Bytes
  pub spf_alignment : Bytes
  pub dkim_alignment : Bytes

unfoldable pub set_tag : Bytes → Bytes → DmarcRecord → DmarcRecord
unfolding codes
set_tag key value r =
    if bytes_eq key (codes "p")
    then record r { policy = to_lower value }
    else if bytes_eq key (codes "sp")
    then record r { subdomain_policy = to_lower value }
    else if bytes_eq key (codes "aspf")
    then record r { spf_alignment = to_lower value }
    else if bytes_eq key (codes "adkim")
    then record r { dkim_alignment = to_lower value }
    else r

-- a part of the record; one that is empty has no `=`
unfoldable pub read_tag : Bytes → DmarcRecord → DmarcRecord
unfolding set_tag split_n
read_tag part r = elim (split_n b'=' 2 (trim_space part)) [
  | key ∷ value ∷ [] ↦ set_tag (to_lower (trim_space key)) (trim_space value) r
  | _ ↦ r
]

unfoldable pub read_tags : List Bytes → DmarcRecord → DmarcRecord
unfolding read_tag
read_tags [] r = r
read_tags (part ∷ parts) r = read_tags parts (read_tag part r)

unfoldable pub parse_dmarc_record : Bytes → DmarcRecord
unfolding read_tags split codes
parse_dmarc_record text = read_tags (split b';' text) (record {
  policy = codes "none";
  subdomain_policy = [];
  spf_alignment = codes "r";
  dkim_alignment = codes "r";
})
