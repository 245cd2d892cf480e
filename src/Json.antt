-- ===== src/Json.antt =====
-- The values that json_spirit reads, which is not part of the program: `js::Value`, `js::Array` and
-- `js::Object`. A real number is the text that `std::to_string` writes of it, and an integer is its
-- 64-bit word in two's complement.
use janosh.Common.{ℕ, ◌+◌, Bool, Bytes}

mutual
  pub data Json : Type 0 where
    null : Json
    text : Bytes → Json
    integer : ℕ → Json
    boolean : Bool → Json
    real : Bytes → Json
    array : Items → Json
    object : Fields → Json

  pub data Items : Type 0 where
    no_items : Items
    item : Json → Items → Items

  pub data Fields : Type 0 where
    no_fields : Fields
    field : Bytes → Json → Fields → Fields

-- `size()`
abbrev pub count : Items → ℕ
count no_items = 0
count (item v vs) = count vs + 1

abbrev pub count_fields : Fields → ℕ
count_fields no_fields = 0
count_fields (field n v fs) = count_fields fs + 1

-- `get_int`: the 32-bit word of an integer.
pub record JsonSpirit : Type 0 where
  pub get_int : ℕ → ℕ
