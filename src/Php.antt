-- ===== src/Php.antt =====
-- What the extension handles of PHP: values, throwables, numbers with a sign, and how a suspended
-- operation is completed (the ASYNC_FINISH_OP, ASYNC_RESOLVE_OP and ASYNC_FAIL_OP macros of
-- php_async.h).
use ext_async.Prelude.{ℕ, suc, zero, Bool, true, false, Option, none, some}

-- The errors that the extension itself prepares, named by their messages.
pub data Message : Type 0 where
  channel_closed : Message
  condition_closed : Message
  awaitable_disposed : Message
  scheduler_disposed : Message
  context_cancelled : Message
  context_timed_out : Message
  iterator_fetching : Message
  negative_size : Message
  size_too_large : Message
  negative_timeout : Message
  resolved_with_awaitable : Message

-- A throwable of the program, known by its identity, one that the extension prepared, and one that
-- it prepared with a previous throwable.
pub data Throwable : Type 0 where
  user : ℕ → Throwable
  fresh : Message → Throwable
  caused : Message → Throwable → Throwable

-- A zval. Values of the program are only passed on; `undef` is IS_UNDEF, also of fresh memory.
pub data Value : Type 0 where
  undef : Value
  null : Value
  opaque : ℕ → Value
  error : Throwable → Value

abbrev pub is_undef : Value → Bool
is_undef undef = true
is_undef v = false

-- `zend_long`, without its bounds. `negsuc n` is -(n + 1).
pub data ℤ : Type 0 where
  pos : ℕ → ℤ
  negsuc : ℕ → ℤ

unfoldable pub is_negative : ℤ → Bool
is_negative (pos n) = false
is_negative (negsuc n) = true

-- `i++`
unfoldable pub increment : ℤ → ℤ
increment (pos n) = pos (suc n)
increment (negsuc zero) = pos 0
increment (negsuc (suc n)) = negsuc n

-- A suspended operation, by its number, and how it was completed.
pub data Completion : Type 0 where
  finish : ℕ → Completion
  resolve : ℕ → Value → Completion
  fail : ℕ → Throwable → Completion

-- An operation is finished if there is no error, and failed with it otherwise.
unfoldable pub finish_or_fail : Option Throwable → ℕ → Completion
finish_or_fail none op = finish op
finish_or_fail (some e) op = fail op e

-- The number of the completed operation.
unfoldable pub completed : Completion → ℕ
completed (finish op) = op
completed (resolve op v) = op
completed (fail op e) = op
