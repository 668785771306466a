-- ===== src/Application/Messaging.antt =====
-- internal/application/messaging.go. A byte slice is a list of bytes: nil and the empty slice are one,
-- since the program looks at the length only.
use variable_star_classifica.Prelude.{◌≡◌, refl, List, Text, ℤ}

-- time.Time, in UTC: the nanoseconds since the zero time.
abbrev pub Time : Type 0
Time = ℤ

pub record MessageHeader : Type 0 where
  pub key : Text
  pub value : Text

pub record OutboundMessage : Type 0 where
  pub topic : Text
  pub key : Text
  pub value : Text
  pub headers : List MessageHeader
  pub timestamp : Time

pub record InboundMessage : Type 0 where
  pub topic : Text
  pub partition : ℤ  -- int32
  pub offset : ℤ  -- int64
  pub key : Text
  pub value : Text
  pub headers : List MessageHeader
  pub timestamp : Time

-- What is read from a topic is what was published to it.
pub record Delivers (o : OutboundMessage) (m : InboundMessage) : Type 0 where
  pub same_topic : m.topic ≡ o.topic
  pub same_key : m.key ≡ o.key
  pub same_value : m.value ≡ o.value
  pub same_headers : m.headers ≡ o.headers

-- A published message as it is read from some place of the topic.
abbrev pub delivered : OutboundMessage → ℤ → ℤ → Time → InboundMessage
delivered o partition offset timestamp = record {
  topic = o.topic;
  partition = partition;
  offset = offset;
  key = o.key;
  value = o.value;
  headers = o.headers;
  timestamp = timestamp;
}

pub delivered-Delivers :
    (o : OutboundMessage) (partition offset : ℤ) (timestamp : Time)
    → Delivers o (delivered o partition offset timestamp)
delivered-Delivers o partition offset timestamp = record {
  same_topic = refl;
  same_key = refl;
  same_value = refl;
  same_headers = refl;
}
