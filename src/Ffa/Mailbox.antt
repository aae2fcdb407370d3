-- ===== src/Ffa/Mailbox.antt =====
-- src/ffa/mailbox.rs: the RX and TX buffers of one VM.
use hypervisor.Prelude.{ℕ, Bool, true, false}

pub record FfaMailbox : Type 0 where
  pub tx_ipa : ℕ
  pub rx_ipa : ℕ
  pub page_count : ℕ
  pub mapped : Bool
  pub rx_held_by_proxy : Bool
  pub msg_pending : Bool
  pub msg_sender_id : ℕ

abbrev pub new : FfaMailbox
new = record {
  tx_ipa = 0;
  rx_ipa = 0;
  page_count = 0;
  mapped = false;
  rx_held_by_proxy = true;
  msg_pending = false;
  msg_sender_id = 0;
}
