-- ===== src/Json.antt =====
-- `serde_json::Value`, as the source reads and changes it. A number that is no `u64` is kept by its
-- text. An object is its entries in the order in which the map gives them.
pub mod Access
use llm_proxy_pii_rust.Prelude.{
  ℕ, ◌+◌, Bool, true, false, ◌&&◌, ◌||◌, [], ◌∷◌, ltb, nat_beq, Option, none, some, if◌then◌else◌,
  Bytes, ◌==◌, bytes_eq, bytes_beq,
}

mutual
  pub data Value : Type 0 where
    null : Value
    bool : Bool → Value
    number : ℕ → Value
    other_number : Bytes → Value
    string : Bytes → Value
    array : Items → Value
    object : Fields → Value

  pub data Items : Type 0 where
    nil : Items
    cons : Value → Items → Items

  pub data Fields : Type 0 where
    end : Fields
    field : Bytes → Value → Fields → Fields

unfoldable pub get_field : Bytes → Fields → Option Value
unfolding bytes_beq
get_field key end = none
get_field key (field k v fs) = if k == key then some v else get_field key fs

-- `Value::get(key)`
unfoldable pub get : Bytes → Value → Option Value
unfolding get_field
get key (object fs) = get_field key fs
get key _ = none

unfoldable pub set_field : Bytes → Value → Fields → Fields
unfolding bytes_beq
set_field key new end = end
set_field key new (field k v fs) =
    if k == key then field k new fs else field k v (set_field key new fs)

-- What a write through `get_mut(key)` leaves: nothing changes where the key is missing.
unfoldable pub set : Bytes → Value → Value → Value
unfolding set_field
set key new (object fs) = object (set_field key new fs)
set key new v = v

-- `Value::as_str`, `as_u64`, `as_array`
unfoldable pub as_str : Option Value → Option Bytes
as_str (some (string s)) = some s
as_str _ = none

unfoldable pub as_u64 : Option Value → Option ℕ
as_u64 (some (number n)) = some n
as_u64 _ = none

unfoldable pub as_array : Option Value → Option Items
as_array (some (array xs)) = some xs
as_array _ = none

unfoldable pub is_object : Value → Bool
is_object (object fs) = true
is_object _ = false

unfoldable pub is_array : Value → Bool
is_array (array xs) = true
is_array _ = false

-- `Vec::push`
unfoldable pub push_item : Items → Value → Items
push_item nil v = cons v nil
push_item (cons x xs) v = cons x (push_item xs v)

-- The order of keys: byte by byte, and a key before all that it begins.
unfoldable pub bytes_lt : Bytes → Bytes → Bool
bytes_lt [] [] = false
bytes_lt [] (d ∷ ds) = true
bytes_lt (c ∷ cs) [] = false
bytes_lt (c ∷ cs) (d ∷ ds) = ltb c d || (nat_beq c d && bytes_lt cs ds)

-- `Map::insert`: the entry with the key is replaced, or a new one stands where its key belongs.
unfoldable pub insert_field : Bytes → Value → Fields → Fields
unfolding bytes_beq bytes_lt
insert_field key new end = field key new end
insert_field key new (field k v fs) =
    if k == key
    then field k new fs
    else if bytes_lt key k
    then field key new (field k v fs)
    else field k v (insert_field key new fs)

-- In-place changes that thread a state, as closures over `&mut Value` do.
module _ {S : Type 0} where
  -- `if let Value::String(s) = value { *s = f(s) }`
  unfoldable pub on_string : (Bytes → S → Bytes × S) → Value → S → Value × S
  on_string f (string t) s = let (t', s') = f t s in (string t', s')
  on_string f v s = (v, s)

  unfoldable pub change_field :
      Bytes → Value → Option Value → (Value → S → Value × S) → S → Value × S
  unfolding set
  change_field key v none g s = (v, s)
  change_field key v (some x) g s = let (x', s') = g x s in (set key x' v, s')

  -- `if let Some(x) = v.get_mut(key) { … }`
  unfoldable pub on_field : Bytes → (Value → S → Value × S) → Value → S → Value × S
  unfolding change_field get
  on_field key g v s = change_field key v (get key v) g s

  -- `for (pos, item) in items.iter_mut().enumerate() { … }`
  unfoldable pub on_items_from : (ℕ → Value → S → Value × S) → ℕ → Items → S → Items × S
  on_items_from g pos nil s = (nil, s)
  on_items_from g pos (cons x xs) s =
      let (x', s') = g pos x s in
      let (xs', s'') = on_items_from g (pos + 1) xs s' in (cons x' xs', s'')

  -- `if let Some(items) = v.as_array_mut() { for … }`
  unfoldable pub on_items : (ℕ → Value → S → Value × S) → Value → S → Value × S
  unfolding on_items_from
  on_items g (array xs) s = let (xs', s') = on_items_from g 0 xs s in (array xs', s')
  on_items g v s = (v, s)
