-- ===== src/Wire/Client.antt =====
-- `TcpClient::run` of tcp_client.cpp, from the reply that it has received on.
use janosh.Common.{
  getlines, ℕ, zero, suc, ◌+◌, ◌-◌, ◌*◌, ◌^◌, Bool, true, false, List, [], ◌∷◌, ◌++◌, Option, none,
  some, Bytes, ◌==◌, ◌&&◌, leb, ltb, length, take, bytes_eq, if◌then◌else◌,
}
use janosh.Wire.Request.{is_digit}
use janosh.Wire.Worker.{marker}

abbrev pub skip : ℕ → Bytes → Bytes
skip zero s = s
skip (suc n) [] = []
skip (suc n) (c ∷ s) = skip n s

unfoldable pub ends_with : Bytes → Bytes → Bool
ends_with s t = leb (length t) (length s) && bytes_eq (skip (length s - length t) s) t

-- `std::stoi` of digits, where an exception is `none`. The result is an `int`; a sign and white space
-- in front are left out, since no worker sends them.
unfoldable pub digits_value : ℕ → Bytes → ℕ
digits_value n [] = n
digits_value n (c ∷ s) = elim (is_digit c) [
  | true ↦ digits_value (n * 10 + (c - b'0')) s
  | false ↦ n
]

unfoldable pub stoi : Bytes → Option ℕ
unfolding digits_value
stoi [] = none
stoi (c ∷ s) =
    if is_digit c && ltb (digits_value 0 (c ∷ s)) (2 ^ 31)
    then some (digits_value 0 (c ∷ s))
    else none

-- The word of the `int` -1.
abbrev pub minus_one : ℕ
minus_one = 2 ^ 32 - 1

abbrev pub or_minus_one : Option ℕ → ℕ
or_minus_one none = minus_one
or_minus_one (some n) = n

-- The line behind the marker, or the marker's line where there is none.
abbrev pub next_line : Bytes → List Bytes → Bytes
next_line line [] = line
next_line line (l ∷ ls) = l

-- Whether a text is empty or ends with a line's end.
unfoldable pub is_terminated : Bytes → Bool
is_terminated [] = true
is_terminated (c ∷ []) = c == 10
is_terminated (c ∷ d ∷ s) = is_terminated (d ∷ s)

-- The loop over the lines of the reply: what is printed, and the return code. Without a marker one
-- more line is printed: an empty one, or the last line again if it has no end, since `getline` then
-- leaves it as it is.
unfoldable pub read_reply : Bool → Bytes → List Bytes → Bytes × ℕ
read_reply terminated last [] = ((if terminated then [] else last) ++ 10 ∷ [], minus_one)
read_reply terminated last (line ∷ rest) =
    let more = read_reply terminated line rest in
    if ends_with line marker
    then (take (length line - length marker) line, or_minus_one (stoi (next_line line rest)))
    else (line ++ 10 ∷ more.0, more.1)

unfoldable pub client_reply : Bytes → Bytes × ℕ
unfolding read_reply is_terminated
client_reply text = read_reply (is_terminated text) [] (getlines 10 [] text)
