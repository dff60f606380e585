-- ===== src/Json/Access.antt =====
-- A write to one field of an object, and reads of that field and of the others.
use llm_proxy_pii_rust.Prelude.{
  ◌≡◌, refl, false, some, Bytes, bytes_eq, bytes_beq, bytes_beq_iff, arith,
}
use llm_proxy_pii_rust.Json.{Value, Fields, end, field, object, get, get_field, set, set_field}

get_field-set_field :
    (key : Bytes) (new : Value) (fs : Fields) (old : Value)
    → get_field key fs ≡ some old
    → get_field key (set_field key new fs) ≡ some new
unfolding get_field set_field
get_field-set_field key new end old h = absurd (cc)
get_field-set_field key new (field k v fs) old h =
    ground (arith, get_field-set_field key new fs old)

get_field-set_field_other :
    (key other : Bytes) (new : Value) (fs : Fields)
    → bytes_beq key other ≡ false
    → get_field other (set_field key new fs) ≡ get_field other fs
unfolding get_field set_field
get_field-set_field_other key other new end h = refl
get_field-set_field_other key other new (field k v fs) h = ground (
  arith,
  get_field-set_field_other key other new fs h,
  bytes_beq_iff k key,
  bytes_beq_iff k other,
  bytes_beq_iff key other,
)

pub get-set :
    (key : Bytes) (new v old : Value) → get key v ≡ some old → get key (set key new v) ≡ some new
unfolding get set
get-set key new (object fs) old h = get_field-set_field key new fs old h
get-set key new _ old h = absurd (cc)

pub get-set_other :
    (key other : Bytes) (new v : Value)
    → bytes_beq key other ≡ false
    → get other (set key new v) ≡ get other v
unfolding get set
get-set_other key other new (object fs) h = get_field-set_field_other key other new fs h
get-set_other key other new _ h = refl
