-- ===== src/Overlap/Examples.antt =====
-- The resolution of overlaps on concrete candidates.
use llm_proxy_pii_rust.Prelude.{
  some, ◌≡◌, refl, List, [], ◌∷◌, Bytes, codes, All, Any, length, ◌≤◌, arith, true, false, ◌⊎◌,
}
use llm_proxy_pii_rust.Prelude.Sort.{insert_by}
use llm_proxy_pii_rust.Kind.{email, phone, location, is_structured}
use llm_proxy_pii_rust.Text.{is_char_boundary, slice, get_slice}
use llm_proxy_pii_rust.Entity.{PiiEntity, IsEntityOf, verified, structural}
use llm_proxy_pii_rust.Overlap.{
  overlaps, group_overlapping, widen_to_char_boundaries, materialize, resolve_overlaps,
}
use llm_proxy_pii_rust.Overlap.Layout.{Ordered}
use llm_proxy_pii_rust.Overlap.Merge.{Covers, concat, concat-group_overlapping}
use llm_proxy_pii_rust.Overlap.Widen.{widen-sliceable}
use llm_proxy_pii_rust.Overlap.Naming.{NamedByEmail, NamedByRank, materialize-named}
use llm_proxy_pii_rust.Overlap.Resolve.{
  resolve_overlaps-Covers, resolve_overlaps-Ordered, resolve_overlaps-Settles,
}

abbrev input : Bytes
input = codes "12@3456 x"

-- An address, a number that runs over its end, and a name.
abbrev mail : PiiEntity
mail = record {
  kind = email;
  span = record { start = 0; end = 5 };
  text = codes "12@34";
  confidence = verified;
}

abbrev number : PiiEntity
number = record {
  kind = phone;
  span = record { start = 3; end = 7 };
  text = codes "3456";
  confidence = structural;
}

abbrev name : PiiEntity
name = record {
  kind = location;
  span = record { start = 8; end = 9 };
  text = codes "x";
  confidence = structural;
}

mail-IsEntityOf : IsEntityOf input mail
unfolding is_char_boundary slice
mail-IsEntityOf = record {
  spans = record {
    not_empty = omega arith;
    inside = omega arith;
    start_cut = refl;
    end_cut = refl;
  };
  carries = refl;
}

number-IsEntityOf : IsEntityOf input number
unfolding is_char_boundary slice
number-IsEntityOf = record {
  spans = record {
    not_empty = omega arith;
    inside = omega arith;
    start_cut = refl;
    end_cut = refl;
  };
  carries = refl;
}

name-IsEntityOf : IsEntityOf input name
unfolding is_char_boundary slice
name-IsEntityOf = record {
  spans = record {
    not_empty = omega arith;
    inside = omega arith;
    start_cut = refl;
    end_cut = refl;
  };
  carries = refl;
}

abbrev candidates : List PiiEntity
candidates = name ∷ number ∷ mail ∷ []

resolve_overlaps-Covers_example :
    All
      (λ c.
        is_structured c.kind ≡ true
        → c.end ≤ length input
        → Any (Covers c) (resolve_overlaps input candidates))
      candidates
resolve_overlaps-Covers_example = resolve_overlaps-Covers input candidates

resolve_overlaps-Ordered_example :
    All (IsEntityOf input) (resolve_overlaps input candidates)
    × Ordered 0 (resolve_overlaps input candidates)
resolve_overlaps-Ordered_example =
    resolve_overlaps-Ordered input candidates
      (name-IsEntityOf, (number-IsEntityOf, (mail-IsEntityOf, tt)))

resolve_overlaps-Settles_example :
    All
      (λ c.
        is_structured c.kind ≡ false
        → Any (λ k. (k ≡ c) ⊎ (overlaps c.span k.span ≡ true)) (resolve_overlaps input candidates))
      candidates
resolve_overlaps-Settles_example = resolve_overlaps-Settles input candidates

materialize-named_example :
    (k : PiiEntity) × (materialize input (mail ∷ number ∷ []) ≡ k ∷ [])
    × (NamedByEmail mail (number ∷ []) k ⊎ NamedByRank mail (number ∷ []) k)
materialize-named_example = materialize-named input mail (number ∷ [])

-- The number names what the address and it make together.
resolved :
    resolve_overlaps input candidates
    ≡ record {
      kind = phone;
      span = record { start = 0; end = 7 };
      text = codes "12@3456";
      confidence = structural;
    }
      ∷ name
      ∷ []
unfolding resolve_overlaps insert_by slice
resolved = refl

concat-group_overlapping_example : concat (group_overlapping candidates) ≡ candidates
concat-group_overlapping_example = concat-group_overlapping candidates

-- A span the wrong way round, beyond the input.
widen-sliceable_example :
    let w = widen_to_char_boundaries input (record { start = 40; end = 12 }) in
    (text : Bytes) × (get_slice input w.start w.end ≡ some text)
widen-sliceable_example = widen-sliceable input (record { start = 40; end = 12 })
