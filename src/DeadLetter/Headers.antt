-- ===== src/DeadLetter/Headers.antt =====
-- What the dead-letter consumer reads is what the retry path wrote.
use contract_driven_messagin.Common.{Thrown}
use contract_driven_messagin.Contracts.Value.{Value, text, Fields, get_field, set_field}
use contract_driven_messagin.Contracts.Events.{EventV2}
use contract_driven_messagin.Consumer.Env.{ConsumerEnv}
use contract_driven_messagin.Consumer.Recovery.{header_or, retry_headers}
use contract_driven_messagin.Relay.Rows.{error_message}
use contract_driven_messagin.Consumer.{Delivery, headers_of}

module _ (count first class failed correlation : Value) (fs : Fields) where
  abbrev counted : Fields
  counted = set_field "x-retry-count" count fs

  abbrev with_first : Fields
  with_first = set_field "x-first-error" first counted

  abbrev with_class : Fields
  with_class = set_field "x-error-class" class with_first

  abbrev with_failed : Fields
  with_failed = set_field "x-failed-at" failed with_class

  abbrev with_all : Fields
  with_all = set_field "x-correlation-id" correlation with_failed

module _ (env : ConsumerEnv) (d : Delivery) (event : EventV2) (err : Thrown) where
  abbrev copied : Fields
  copied = retry_headers env d event err

  abbrev first_error : Value
  first_error = header_or (get_field "x-first-error" (headers_of d)) (text (error_message err))

  abbrev failed_at : Value
  failed_at = header_or (get_field "x-failed-at" (headers_of d)) (text env.now_iso)
