-- ===== src/Wire/RoundTrip.antt =====
-- The client prints what the worker's request has printed, and returns whether it succeeded.
use janosh.Common.{
  getlines, getlines_end, getlines_next, getlines-delimiter, ℕ, ◌-◌, ◌≡◌, ◌≢◌, refl, ap, ◌∙◌, Bool,
  true, false, [], ◌∷◌, ◌++◌, append_assoc, append-nil, Bytes, codes, arith, ◌==◌, ==_iff, ◌||◌,
  length, length-append, take, bytes_eq, bytes_eq_refl, if◌then◌else◌, All, Bool-cases, inl, inr,
  some,
}
use janosh.Result.{ok}
use janosh.Wire.Request.{Request, command_line}
use janosh.Wire.Worker.{Service, marker, ending, as_set, answer_request, turn}
use janosh.Wire.Client.{
  skip, ends_with, stoi, digits_value, read_reply, client_reply, is_terminated, or_minus_one,
}

skip-append : (s t : Bytes) → skip (length s) (s ++ t) ≡ t
skip-append [] t = refl
skip-append (c ∷ s) t = skip-append s t

pub take-append : (s t : Bytes) → take (length s) (s ++ t) ≡ s
take-append [] t = refl
take-append (c ∷ s) t = ap (λ (r : Bytes). c ∷ r) (take-append s t)

cut_length : (s t : Bytes) → length (s ++ t) - length t ≡ length s
cut_length s t = omega (arith, length-append s t)

ends_with-append : (s t : Bytes) → ends_with (s ++ t) t ≡ true
unfolding ends_with
ends_with-append s t =
    rw (cut_length s t, skip-append s t, bytes_eq_refl t) (ground (arith, length-append s t))

-- No line of the text ends with the marker.
abbrev pub Unmarked : Bytes → Type 0
Unmarked text = All (λ line. ends_with line marker ≡ false) (getlines 10 [] text)

abbrev code_of : Bool → ℕ
code_of true = 0
code_of false = 1

ending_lines :
    (cur : Bytes) (result : Bool)
    → getlines 10 cur (ending result)
      ≡ (cur ++ marker) ∷ (if result then codes "0" else codes "1") ∷ []
unfolding ending
ending_lines cur true = getlines-delimiter 10 marker cur _ (omega arith) ∙ unfold getlines in refl
ending_lines cur false = getlines-delimiter 10 marker cur _ (omega arith) ∙ unfold getlines in refl

stoi_code :
    (result : Bool) → or_minus_one (stoi (if result then codes "0" else codes "1")) ≡ code_of result
unfolding stoi digits_value
stoi_code true = refl
stoi_code false = refl

read_reply-ending :
    (out cur last : Bytes) (terminated result : Bool)
    → All (λ line. ends_with line marker ≡ false) (getlines 10 cur out)
    → read_reply terminated last (getlines 10 cur (out ++ ending result))
      ≡ (cur ++ out, code_of result)
unfolding read_reply
read_reply-ending [] cur last terminated result unmarked =
    rw
      (
        ending_lines cur result,
        ends_with-append cur marker,
        cut_length cur marker,
        take-append cur marker,
        append-nil cur,
        stoi_code result,
      )
      refl
read_reply-ending (c ∷ out) cur last terminated result unmarked = elim (Bool-cases (c == 10)) [
  | inl e ↦
      let u = rw (getlines_end 10 c cur out e) at unmarked in
      rw
        (
          getlines_end 10 c cur (out ++ ending result) e,
          u.0,
          read_reply-ending out [] cur terminated result u.1,
          (==_iff c 10).0 e,
        )
        refl
  | inr e ↦ rw (getlines_next 10 c cur (out ++ ending result) e) (
      read_reply-ending out (cur ++ c ∷ []) last terminated result
        (rw (getlines_next 10 c cur out e) at unmarked)
      ∙ rw (append_assoc cur (c ∷ []) out) refl)
]

abbrev pub is_transaction : Bytes → Bool
is_transaction text =
    bytes_eq text (codes "begin") || bytes_eq text (codes "commit") || bytes_eq text (codes "abort")

-- If a text that is not empty and no order about transactions is read as a request with a command,
-- whose arguments are initialized, then the worker answers with a text from which the client reads
-- exactly the output of the request, provided that no line of it ends with the marker, and the code
-- 0 if the request succeeded, or 1.
pub client_reply-turn :
    {S : Type 0} (service : Service S) (s s' : S) (text line out : Bytes) (r : Request)
    (result : Bool)
    → is_transaction text ≡ false
    → text ≢ []
    → service.read_request text ≡ ok r
    → r.command ≢ []
    → command_line r ≡ ok line
    → service.run_request (as_set r) (service.set_do_publish (as_set r).triggers s)
      ≡ (result, out, s')
    → Unmarked out
    → (reply : Bytes) × (turn service text s ≡ (some reply, s'))
      × (client_reply reply ≡ (out, code_of result))
unfolding turn answer_request client_reply
client_reply-turn service s s' [] line out r result other some_text reads names logs runs unmarked =
    absurd (some_text refl)
client_reply-turn service s s' (c ∷ text) line out r result other some_text reads names logs runs
      unmarked =
    (
      out ++ ending result,
      ground arith,
      read_reply-ending out [] [] (is_terminated (out ++ ending result)) result unmarked,
    )
