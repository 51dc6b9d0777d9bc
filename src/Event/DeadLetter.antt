-- ===== src/Event/DeadLetter.antt =====
-- pkg/event/deadletter.go: why the mux gave up on a message. The empty reason of the source
-- ("retryable") is the `none` of an optional reason.
use event_driven.Prelude.{ℕ, Bytes, str}

pub data DeadLetterReason : Type 0 where
  decode validation panic non_retryable no_redelivery max_retries publish : DeadLetterReason

unfoldable pub reason_text : DeadLetterReason → Bytes
reason_text decode = str "decode"
reason_text validation = str "validation"
reason_text panic = str "panic"
reason_text non_retryable = str "nonretryable"
reason_text no_redelivery = str "noredelivery"
reason_text max_retries = str "maxretries"
reason_text publish = str "publish"

abbrev pub ext_dead_letter_reason : Bytes
ext_dead_letter_reason = str "deadletterreason"

abbrev pub ext_dead_letter_error : Bytes
ext_dead_letter_error = str "deadlettererror"

abbrev pub max_dead_letter_error_len : ℕ
max_dead_letter_error_len = 256
