-- ===== src/Application/DeadLetters/Recovery.antt =====
-- internal/application/classification_command_dlq.go, classification_result_dlq.go and
-- candidate_dlq.go: what can be read back from a dead letter.
use variable_star_classifica.Prelude.{
  ℕ, zero, suc, ◌+◌, ◌-◌, ◌*◌, ◌/◌, ◌%◌, ◌≤◌, ◌≡◌, ◌∙◌, ap, refl, List, [], ◌∷◌, ◌++◌, Option, none,
  some, Text, codes, if◌then◌else◌, ◌==◌, length, take, drop, ℤ, pos, negsuc, arith, length-append,
}
use variable_star_classifica.Errors.{WorkerError, MessageError, ok, permanent}
use variable_star_classifica.Application.Messaging.{MessageHeader, OutboundMessage, InboundMessage}
use variable_star_classifica.Application.DeadLetters.{
  decimal, format_int, header, origin_headers, dead_letter, command_headers, field_headers,
  build_command_dlq_message, build_result_dlq_message, build_candidate_dlq_message,
}

-- The number that some digits continue.
read_decimal : ℕ → Text → ℕ
read_decimal n [] = n
read_decimal n (c ∷ s) = read_decimal (n * 10 + (c - 48)) s

read_decimal-decimal :
    (fuel n : ℕ) (rest : Text)
    → n ≤ fuel
    → read_decimal 0 (decimal fuel n rest) ≡ read_decimal n rest
unfolding read_decimal decimal
read_decimal-decimal zero n rest h = ground arith
read_decimal-decimal (suc fuel) n rest h =
    ground (arith, read_decimal-decimal fuel (n / 10) ((48 + n % 10) ∷ rest))

-- A negative number starts with a minus sign.
read_int : Text → ℤ
unfolding read_decimal
read_int [] = pos 0
read_int (c ∷ s) = if c == 45 then negsuc (read_decimal 0 s - 1) else pos (read_decimal 0 (c ∷ s))

StartsWithDigit : Text → Type 0
StartsWithDigit [] = ⊥
StartsWithDigit (c ∷ s) = 48 ≤ c

decimal-StartsWithDigit : (fuel n : ℕ) (rest : Text) → StartsWithDigit (decimal fuel n rest)
unfolding decimal StartsWithDigit
decimal-StartsWithDigit zero n rest = omega arith
decimal-StartsWithDigit (suc fuel) n rest =
    ground (arith, decimal-StartsWithDigit fuel (n / 10) ((48 + n % 10) ∷ rest))

read_int-digits : (s : Text) → StartsWithDigit s → read_int s ≡ pos (read_decimal 0 s)
unfolding StartsWithDigit read_int read_decimal
read_int-digits [] h = absurd h
read_int-digits (c ∷ s) h = ground arith

read_int-format_int : (n : ℤ) → read_int (format_int n) ≡ n
unfolding read_int format_int read_decimal
read_int-format_int (pos n) =
    read_int-digits (decimal n n []) (decimal-StartsWithDigit n n [])
    ∙ ap pos (read_decimal-decimal n n [] (omega arith))
read_int-format_int (negsuc n) =
    ground (arith, read_decimal-decimal (suc n) (suc n) [] (omega arith))

take-length : {A : Type 0} (xs ys : List A) → take (length xs) (xs ++ ys) ≡ xs
take-length [] ys = refl
take-length (x ∷ xs) ys = ap (λ zs. x ∷ zs) (take-length xs ys)

drop-length : {A : Type 0} (xs ys : List A) → drop (length xs) (xs ++ ys) ≡ ys
drop-length [] ys = refl
drop-length (x ∷ xs) ys = drop-length xs ys

-- The message that a dead letter keeps: what stands before its last `n` headers, and where the last
-- three say that it was read.
with_origin : OutboundMessage → List MessageHeader → List MessageHeader → Option InboundMessage
with_origin out headers (topic ∷ partition ∷ offset ∷ []) = some (record {
  topic = topic.value;
  partition = read_int partition.value;
  offset = read_int offset.value;
  key = out.key;
  value = out.value;
  headers = headers;
  timestamp = out.timestamp;
})
with_origin out headers _ = none

pub recover : ℕ → OutboundMessage → Option InboundMessage
unfolding with_origin
recover n out =
    let own = length out.headers - n in
    with_origin out (take own out.headers) (drop (n - 3) (drop own out.headers))

recover-dead_letter :
    (topic : Text) (m : InboundMessage) (metadata : List MessageHeader)
    → drop (length metadata - 3) metadata ≡ origin_headers m
    → recover (length metadata) (dead_letter topic m metadata) ≡ some m
unfolding recover with_origin
recover-dead_letter topic m metadata h =
    let own : length (m.headers ++ metadata) - length metadata ≡ length m.headers =
      omega (arith, length-append m.headers metadata) in
    rw (
      own,
      take-length m.headers metadata,
      drop-length m.headers metadata,
      h,
      read_int-format_int m.partition,
      read_int-format_int m.offset,
    )

-- A dead letter that BuildClassificationCommandDLQMessage returns is for a permanent error, goes to the
-- DLQ topic, and the message, with the topic, partition and offset it was read from, can be read back
-- from it, whatever its own headers were.
pub build_command_dlq_message-recover :
    (topic : Text) (m : InboundMessage) (e : WorkerError) (out : OutboundMessage)
    → build_command_dlq_message topic m e ≡ ok out
    → (e.class ≡ permanent) × (out.topic ≡ topic) × (recover 6 out ≡ some m)
unfolding build_command_dlq_message
build_command_dlq_message-recover topic m e out h =
    ground (arith, recover-dead_letter topic m (command_headers e m) refl)

-- The same of a dead letter that BuildClassificationResultDLQMessage returns.
pub build_result_dlq_message-recover :
    (topic : Text) (m : InboundMessage) (e : MessageError) (out : OutboundMessage)
    → build_result_dlq_message topic m e ≡ ok out
    → (out.topic ≡ topic) × (recover 6 out ≡ some m)
unfolding build_result_dlq_message
build_result_dlq_message-recover topic m e out h =
    ground (arith, recover-dead_letter topic m (field_headers e m) refl)

-- The same of a dead letter that BuildCandidateDLQMessage returns, which has four headers of its own.
pub build_candidate_dlq_message-recover :
    (topic : Text) (m : InboundMessage) (e : MessageError) (out : OutboundMessage)
    → build_candidate_dlq_message topic m e ≡ ok out
    → (out.topic ≡ topic) × (recover 4 out ≡ some m)
unfolding build_candidate_dlq_message
build_candidate_dlq_message-recover topic m e out h = ground (
  arith,
  recover-dead_letter topic m (header "x-astro-error-code" (codes e.code) ∷ origin_headers m) refl,
)
