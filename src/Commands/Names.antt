-- ===== src/Commands/Names.antt =====
-- `makeCommandMap` of commands.cpp, and how `DatabaseThread::run` finds a command by its name.
use janosh.Common.{List, [], ◌∷◌, Option, none, some, Bytes, codes, bytes_eq, if◌then◌else◌}
use janosh.Commands.{
  Command, load, patch, set, add, replace, append, dump, size, copy, remove, shift, move, truncate,
  mkarr, mkobj, hash, publish, exists,
}

-- The classes of commands: `get`, `random` and `filter` work with visitors.
pub data Class : Type 0 where
  plain : Command → Class
  get random filter : Class

abbrev pub CommandMap : Type 0
CommandMap = List (Bytes × Class)

unfoldable pub make_command_map : CommandMap
make_command_map =
    (codes "load", plain load)
    ∷ (codes "set", plain set)
    ∷ (codes "add", plain add)
    ∷ (codes "replace", plain replace)
    ∷ (codes "append", plain append)
    ∷ (codes "dump", plain dump)
    ∷ (codes "size", plain size)
    ∷ (codes "get", get)
    ∷ (codes "copy", plain copy)
    ∷ (codes "remove", plain remove)
    ∷ (codes "shift", plain shift)
    ∷ (codes "move", plain move)
    ∷ (codes "truncate", plain truncate)
    ∷ (codes "mkarr", plain mkarr)
    ∷ (codes "mkobj", plain mkobj)
    ∷ (codes "hash", plain hash)
    ∷ (codes "publish", plain publish)
    ∷ (codes "exists", plain exists)
    ∷ (codes "random", random)
    ∷ (codes "filter", filter)
    ∷ (codes "patch", plain patch)
    ∷ []

-- `cm_[name]`, where a missing name is put into the map with a null pointer.
unfoldable pub find : Bytes → CommandMap → Option Class
find name [] = none
find name ((n, c) ∷ m) = if bytes_eq n name then some c else find name m

unfoldable pub command_named : Bytes → Option Class
unfolding find make_command_map
command_named name = find name make_command_map
