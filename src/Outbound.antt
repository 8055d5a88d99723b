-- ===== src/Outbound.antt =====
-- pkg/outbound: delivery to the mail exchangers of other domains. What the deliverer and the client
-- call (DNS, the connections, the signer of DKIM, the counters) is a parameter, on a state `W`.
pub mod Errors
pub mod Deliver
pub mod Client
mod Tests
