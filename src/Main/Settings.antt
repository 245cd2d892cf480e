-- ===== src/Main/Settings.antt =====
-- settings.cpp: what the constructor makes of the environment and of the file `janosh.json`.
-- Wherever it calls `error`, the process ends.
use janosh.Common.{
  ℕ, [], ◌++◌, Bool, Option, none, some, String, Bytes, codes, bytes_eq, not, ◌&&◌, if◌then◌else◌,
}
use janosh.Json.{Json, Fields, no_fields, field}

pub record Settings : Type 0 where
  pub janosh_file : Bytes
  pub max_threads : ℕ
  pub db_string : Bytes
  pub ktopts : Bytes
  pub bind_url : Bytes
  pub connect_url : Bytes

-- The file system, the JSON reader, and `std::stoi`; `none` stands for
-- an exception, and for a variable that is not set.
pub record Host : Type 0 where
  pub home : Option Bytes
  pub exists : Bytes → Bool
  pub create_directory : Bytes → Bool
  pub content : Bytes → Bytes
  pub read : Bytes → Option Json
  pub stoi : Bytes → Option ℕ

pub data Loaded : Type 0 where
  broken : String → Loaded
  settings : Settings → Loaded

unfoldable pub find : Bytes → Fields → Option Json
find name no_fields = none
find name (field n v fs) = if bytes_eq n name then some v else find name fs

infixl 5 ◌>>=◌
abbrev ◌>>=◌ : {A B : Type 0} → Option A → (A → Option B) → Option B
none >>= f = none
some a >>= f = f a

-- `get_str` throws for a value that is no text.
abbrev pub get_str : Json → Option Bytes
get_str (Json.text s) = some s
get_str _ = none

-- A text that is read where the field is there.
unfoldable pub text_field : Bytes → Fields → Option Bytes
unfolding find
text_field name fs = elim (find name fs) [ none ↦ some [] | some v ↦ get_str v ]

abbrev unable : Loaded
unable = broken "Unable to load janosh configuration"

-- The fields after `maxThreads`.
unfoldable pub with_texts : Bytes → ℕ → Fields → Loaded
unfolding text_field
with_texts file max_threads fs =
    elim (do
      db_string ← text_field (codes "dbstring") fs
      ktopts ← text_field (codes "ktopts") fs
      bind_url ← text_field (codes "bindUrl") fs
      connect_url ← text_field (codes "connectUrl") fs
      some (record {
        janosh_file = file;
        max_threads = max_threads;
        db_string = db_string;
        ktopts = ktopts;
        bind_url = bind_url;
        connect_url = connect_url;
      })) [ none ↦ unable | some s ↦ settings s ]

module _ (host : Host) where
  unfoldable pub of_fields : Bytes → Fields → Loaded
  unfolding find with_texts
  of_fields file fs = elim (find (codes "maxThreads") fs) [
    | none ↦ broken "maxThreads definition not found"
    | some v ↦ (elim (do s ← get_str v; host.stoi s) [
      | none ↦ unable
      | some n ↦ with_texts file n fs
    ])
  ]

  -- What is read of the file must be an object.
  unfoldable pub of_document : Bytes → Option Json → Loaded
  unfolding of_fields
  of_document file (some (Json.object fs)) = of_fields file fs
  of_document file _ = unable

  -- `Settings::Settings()`
  unfoldable pub load_from : Bytes → Loaded
  unfolding of_document
  load_from home =
      let dir = home ++ codes "/.janosh/" in
      let file = dir ++ codes "janosh.json" in
      if not (host.exists dir) && not (host.create_directory dir)
      then broken "can't create directory"
      else if not (host.exists file)
      then broken "janosh configuration not found"
      else of_document file (host.read (host.content file))

  unfoldable pub load : Loaded
  unfolding load_from
  load = elim host.home [
    | none ↦ broken "Can't find environment variable."
    | some home ↦ load_from home
  ]
