-- ===== src/Tracker/Print.antt =====
-- What the tracker prints, and to which stream: `print` of tracker.cpp and what it calls.
use janosh.Common.{List, [], ◌∷◌, ◌++◌, Bytes, codes, length}
use janosh.Component.{LexicalCast, to_text}
use janosh.Tracker.{Tracker, Counts, PrintDirective, dont_print, print_meta, print_full, reset}

-- The stream that `print` is given, and `cerr`.
pub data Stream : Type 0 where
  given errors : Stream

abbrev pub Output : Type 0
Output = List (Stream × Bytes)

abbrev line : Bytes → Bytes
line s = s ++ 10 ∷ []

unfoldable pub print_header : Stream → Output
print_header out = (out, line (codes "--- Tracker Statistics ---")) ∷ []

unfoldable pub print_footer : Stream → Output
print_footer out = (out, line (codes "--------------------------")) ∷ []

module _ ⦃cast : LexicalCast⦄ where
  abbrev size_text : Counts → Bytes
  size_text m = to_text (length m) ++ 9 ∷ []

  unfoldable pub print_meta_to : Stream → Tracker → Output
  print_meta_to out t =
      (out, line (codes "r\tw\td\tt\t"))
      ∷ (
        out,
        line (
            size_text t.reads ++ size_text t.writes ++ size_text t.deletes ++ size_text t.triggers),
      )
      ∷ []

  -- The lines of a map.
  unfoldable pub count_lines : Stream → Counts → Output
  count_lines out [] = []
  count_lines out ((key, n) ∷ m) = (out, line (key ++ b' ' ∷ to_text n)) ∷ count_lines out m

  unfoldable pub section : Stream → Bytes → Counts → Output
  unfolding print_footer count_lines
  section out title [] = []
  section out title (entry ∷ m) =
      print_footer out ++ (out, line title) ∷ count_lines out (entry ∷ m)

  unfoldable pub print_full_to : Stream → Tracker → Output
  unfolding print_meta_to section
  print_full_to out t =
      print_meta_to out t
      ++ section out (codes "Reads:") t.reads
      ++ section out (codes "Writes:") t.writes
      ++ section out (codes "Deletes:") t.deletes
      ++ section out (codes "Triggers:") t.triggers

  -- The statistics go to `cerr`, whatever stream is given.
  abbrev pub statistics : PrintDirective → Tracker → Output
  statistics print_meta t = print_meta_to errors t
  statistics print_full t = print_full_to errors t
  statistics dont_print t = []

  -- `print`, with the print directive of the thread's tracker.
  unfoldable pub print : PrintDirective → Tracker → Output
  unfolding print_header print_footer print_meta_to print_full_to
  print dont_print t = []
  print directive t = print_header given ++ statistics directive t ++ print_footer given

  -- `reset`, which prints to `cerr` first.
  unfoldable pub reset_printing : PrintDirective → Tracker → Output × Tracker
  unfolding print reset
  reset_printing directive t = (print directive t, reset t)
