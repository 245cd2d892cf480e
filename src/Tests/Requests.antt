-- ===== src/Tests/Requests.antt =====
-- Requests with too few parameters.
use janosh.Common.{◌%◌, ◌^◌, List, [], ◌∷◌, true, false, ◌≡◌, none, codes, length, bytes_eq}
use janosh.Result.{ok, err, invalid_argument}
use janosh.Decimal.RoundTrip.{decimal}
use janosh.Component.{LexicalCast}
use janosh.Value.{Value, string}
use janosh.Tracker
use janosh.Json.{JsonSpirit}
use janosh.Remote.{RemoteDb, World}
use janosh.Database.Dumps.{Hasher}
use janosh.Commands.{Outside}
use janosh.Commands.Names.{command_named, find, make_command_map}
use janosh.Print.Visitors.{json}
use janosh.Print.Random.{Dice}
use janosh.Print.JsonPath.{Jsoncons}
use janosh.Print.Dispatch.{run_named, run_named-refused}
use janosh.Tests.Server.{listed}

instance abbrev cast : LexicalCast
cast = decimal

instance abbrev remote : RemoteDb
remote = listed

instance abbrev spirit : JsonSpirit
spirit = record { get_int = λ i. i % 2 ^ 32 }

instance abbrev hasher : Hasher
hasher = record { hash = length }

instance abbrev outside : Outside
outside = record { file = λ s. none; input = []; read = λ s. err invalid_argument }

abbrev bare : World
bare = record { db = record { records = []; places = [] }; tracker = Tracker.new; sent = [] }

abbrev lone_path : List Value
lone_path = record { str_obj = codes "/a"; type = string; size = 1; initialized = true } ∷ []

instance abbrev dice : Dice
dice = record { draw = λ a b. a }

instance abbrev lib : Jsoncons
lib = record {
  Doc = Unit {0};
  Ref = Unit {0};
  new = tt;
  root = tt;
  is_array = λ r d. false;
  push_back = λ r i d. ok d;
  assign = λ r n i d. ok d;
  last = λ r d. tt;
  at = λ r n d. ok tt;
  json_query = λ d e. ok [];
  stol = λ s. ok 0;
}

run_named-refused_example : run_named 1 json (codes "set") lone_path bare ≡ (false, bare)
unfolding command_named find make_command_map bytes_eq
run_named-refused_example = run_named-refused 1 json (codes "set") lone_path bare (λ c e. cc)
