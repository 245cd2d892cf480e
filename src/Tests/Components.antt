-- ===== src/Tests/Components.antt =====
-- The theorems on components, values and the tracker at small inputs.
use janosh.Common.{◌+◌, ◌%◌, List, ◌^◌, ◌∷◌, [], true, false, ◌≡◌, refl, codes, ltb, arith}
use janosh.Result.{ok, ◌>>=◌}
use janosh.Decimal.RoundTrip.{decimal}
use janosh.Component.{Component, of_string, less}
use janosh.Component.Order.{index, less-index, of_string-index_text}
use janosh.Value
use janosh.Value.{Value, string, array, of_type, get_size, make_db_string}
use janosh.Value.Stored.{of_stored, of_stored-make_db_string}
use janosh.Tracker
use janosh.Tracker.{Tracker, Operation, write, read, get}
use janosh.Tracker.Counting.{Event, run, count_of, occurrences, count_of-run}

abbrev seven : Component
seven = index ⦃cast = decimal⦄ 7

seven_reads : of_string ⦃cast = decimal⦄ (codes "#7") ≡ ok seven
unfolding decimal
seven_reads = of_string-index_text ⦃cast = decimal⦄ 7 (omega arith)

abbrev ten : Component
ten = index ⦃cast = decimal⦄ 10

ten_reads : of_string ⦃cast = decimal⦄ (codes "#10") ≡ ok ten
unfolding decimal
ten_reads = of_string-index_text ⦃cast = decimal⦄ 10 (omega arith)

dot_reads :
    of_string ⦃cast = decimal⦄ (codes ".") ≡ ok (record { key = codes "!"; pretty = codes "." })
unfolding of_string
dot_reads = refl

less-index_example : less seven ten ≡ ltb 7 10
unfolding decimal
less-index_example =
    less-index ⦃cast = decimal⦄ 7 10 (omega arith) (omega arith) seven ten seven_reads ten_reads

of_stored-make_db_string_example :
    (of_type ⦃cast = decimal⦄ (codes "x") string >>= λ x.
    make_db_string x >>= λ s. of_stored ⦃cast = decimal⦄ false false Value.uninitialized s)
    ≡ of_type ⦃cast = decimal⦄ (codes "x") string
of_stored-make_db_string_example =
    of_stored-make_db_string ⦃cast = decimal⦄ (codes "x") string Value.uninitialized refl

abbrev events : List Event
events =
    record { key = codes "/a"; value = codes "s1"; op = write }
    ∷ record { key = codes "/a"; value = codes "s1"; op = read }
    ∷ record { key = codes "/a"; value = codes "s2"; op = write }
    ∷ []

abbrev counting : Tracker
counting = record Tracker.new { print_directive = Tracker.print_meta; do_publish = true }

count_of-run_example :
    count_of (codes "/a") (get write (run counting events).0)
    ≡ (count_of (codes "/a") (get write counting) + occurrences write (codes "/a") events) % 2 ^ 64
unfolding Tracker.find
count_of-run_example = count_of-run counting events write (codes "/a") refl (omega arith)
