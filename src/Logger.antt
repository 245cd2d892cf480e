-- ===== src/Logger.antt =====
-- `ThreadNameLookup` of logger.cpp: the names of threads in the log. A thread is named when it is
-- registered, and gets a number behind its name.
pub mod Names
use janosh.Common.{
  ℕ, ◌+◌, ◌%◌, ◌^◌, ◌∷◌, ◌++◌, none, some, [], Bytes, codes, Map, no_entries, put, erase, number_eq,
  text_eq, or_default,
}
use janosh.Component.{LexicalCast, to_text}

pub record ThreadNameLookup : Type 0 where
  pub id_lookup : Map ℕ Bytes
  pub name_lookup : Map Bytes ℕ
  pub name_count : Map Bytes ℕ

abbrev pub no_threads : ThreadNameLookup
no_threads = record { id_lookup = no_entries; name_lookup = no_entries; name_count = no_entries }

abbrev pub counted : Bytes → ThreadNameLookup → ℕ
counted name s = or_default 0 (s.name_count name)

module _ ⦃cast : LexicalCast⦄ where
  abbrev pub numbered : Bytes → ℕ → Bytes
  numbered name n = name ++ b'-' ∷ to_text n

  unfoldable pub set : ℕ → Bytes → ThreadNameLookup → ThreadNameLookup
  set id thread_name s =
      let cnt = counted thread_name s in
      let name = numbered thread_name cnt in
      record {
        id_lookup = put id name s.id_lookup;
        name_lookup = put name id s.name_lookup;
        name_count = put thread_name ((cnt + 1) % 2 ^ 64) s.name_count;
      }

unfoldable pub get : ℕ → ThreadNameLookup → Bytes
get id s = or_default (codes "Unknown") (s.id_lookup id)

unfoldable pub remove : ℕ → ThreadNameLookup → ThreadNameLookup
remove id s = record s {
  id_lookup = erase id s.id_lookup;
  name_lookup = erase (or_default [] (s.id_lookup id)) s.name_lookup;
}
