-- ===== src/Wire/Subscription.antt =====
-- `Subscriptions::receive` of lua_script.cpp: how a message of the message queue is taken apart.
use janosh.Common.{
  ℕ, ◌≡◌, ◌≢◌, refl, ap, ◌∙◌, true, false, [], ◌∷◌, ◌++◌, Option, none, some, Bytes, arith, ◌==◌,
  ==_refl, Lacks,
}
use janosh.Result.{Result, ok, err, janosh_exception}
use janosh.Tracker.{message, c_str}

-- `s.find(c)`, as what stands before and behind the first `c`; `none` is `npos`.
unfoldable pub split : ℕ → Bytes → Option (Bytes × Bytes)
split c [] = none
split c (b ∷ s) = elim (b == c) [
  | true ↦ some ([], s)
  | false ↦ elim (split c s) [ none ↦ none | some (l, r) ↦ some (b ∷ l, r) ]
]

-- The operation and the value, behind the key and a space.
abbrev pub receive_value : Bytes → Option (Bytes × Bytes) → Result (Bytes × Bytes × Bytes)
receive_value key none = err (janosh_exception "Value separator missing")
receive_value key (some (op, value)) = ok (key, op, value)

abbrev pub receive_op : Bytes → Bytes → Result (Bytes × Bytes × Bytes)
receive_op key [] = err (janosh_exception "Operation empty")
receive_op key (c ∷ s) = receive_value key (split b' ' (c ∷ s))

abbrev pub receive_key : Option (Bytes × Bytes) → Result (Bytes × Bytes × Bytes)
receive_key none = err (janosh_exception "Parsing key failed")
receive_key (some ([], rest)) = err (janosh_exception "Key empty")
receive_key (some (c ∷ key, rest)) = receive_op (c ∷ key) rest

unfoldable pub receive : Bytes → Result (Bytes × Bytes × Bytes)
receive update = receive_key (split b' ' (c_str update))

split-append : (c : ℕ) (s t : Bytes) → Lacks c s → split c (s ++ c ∷ t) ≡ some (s, t)
unfolding split
split-append c [] t lacks = ground (arith, ==_refl c)
split-append c (b ∷ s) t lacks = ground (arith, split-append c s t lacks.1, lacks.0)

c_str-append : (s t : Bytes) → Lacks 0 s → c_str (s ++ t) ≡ s ++ c_str t
unfolding c_str
c_str-append [] t lacks = refl
c_str-append (b ∷ s) t lacks = ground (arith, c_str-append s t lacks.1, lacks.0)

c_str_twice : (s : Bytes) → c_str (c_str s) ≡ c_str s
unfolding c_str
c_str_twice [] = refl
c_str_twice (c ∷ s) = ground (arith, c_str_twice s)

c_str-cons : (c : ℕ) (s : Bytes) → c ≢ 0 → c_str (c ∷ s) ≡ c ∷ c_str s
unfolding c_str
c_str-cons c s h = ground arith

-- A message has no zero byte.
c_str-message :
    (key op value : Bytes)
    → Lacks 0 key
    → Lacks 0 op
    → c_str (message key op value) ≡ message key op value
unfolding message
c_str-message key op value key_text op_text =
    rw
      (
        c_str-append key (b' ' ∷ (op ++ b' ' ∷ c_str value)) key_text,
        c_str-cons b' ' (op ++ b' ' ∷ c_str value) (omega arith),
        c_str-append op (b' ' ∷ c_str value) op_text,
        c_str-cons b' ' (c_str value) (omega arith),
        c_str_twice value,
      )
      refl

op_received :
    (op value key : Bytes)
    → Lacks b' ' op
    → receive_op key (op ++ b' ' ∷ c_str value) ≡ ok (key, op, c_str value)
op_received [] value key word = ap (receive_value key) (split-append b' ' [] (c_str value) tt)
op_received (o ∷ op) value key word =
    ap (receive_value key) (split-append b' ' (o ∷ op) (c_str value) word)

receive_message :
    (c : ℕ) (key op value : Bytes)
    → Lacks 0 (c ∷ key)
    → Lacks b' ' (c ∷ key)
    → Lacks 0 op
    → Lacks b' ' op
    → receive (message (c ∷ key) op value) ≡ ok (c ∷ key, op, c_str value)
unfolding receive message
receive_message c key op value key_text key_word op_text op_word =
    ap (λ (s : Bytes). receive_key (split b' ' s))
      (c_str-message (c ∷ key) op value key_text op_text)
    ∙ ap receive_key (split-append b' ' (c ∷ key) (op ++ b' ' ∷ c_str value) key_word)
    ∙ op_received op value (c ∷ key) op_word

-- A message that is published for a key and an operation without a space and without a zero byte,
-- where the key is not empty, is taken apart by `receive` into the key, the operation, and the
-- value up to its first zero byte.
pub receive-message :
    (key op value : Bytes)
    → key ≢ []
    → Lacks 0 key
    → Lacks b' ' key
    → Lacks 0 op
    → Lacks b' ' op
    → receive (message key op value) ≡ ok (key, op, c_str value)
receive-message [] op value some_key = absurd (some_key refl)
receive-message (c ∷ key) op value some_key = receive_message c key op value
