-- ===== src/Evidence/Json.antt =====
-- Payloads as `json.loads` makes them; an object keeps the order of its keys. A number with a
-- fraction is kept by its text.
use freebsd_laboratory.Base.{Bool, Option, none, some, ◌≡◌, refl, if◌then◌else◌, arith}
use freebsd_laboratory.Base.Int.{ℤ}
use freebsd_laboratory.Base.Text.{Text, eq_text, eq_text_iff}

mutual
  pub data Json : Type 0 where
    null : Json
    bool : Bool → Json
    int : ℤ → Json
    real : Text → Json
    str : Text → Json
    array : Items → Json
    object : Members → Json

  pub data Items : Type 0 where
    nil : Items
    item : Json → Items → Items

  pub data Members : Type 0 where
    end : Members
    member : Text → Json → Members → Members

-- d.get(key)
unfoldable pub get : Text → Members → Option Json
get k end = none
get k (member j v d) = if eq_text k j then some v else get k d

-- d[key] = value
unfoldable pub put : Text → Json → Members → Members
put k v end = member k v end
put k v (member j w d) = if eq_text k j then member j v d else member j w (put k v d)

-- d.pop(key, None)
unfoldable pub remove : Text → Members → Members
remove k end = end
remove k (member j w d) = let rest = remove k d in if eq_text k j then rest else member j w rest

pub get-remove : (k : Text) (d : Members) → get k (remove k d) ≡ none
unfolding get remove
get-remove k end = refl
get-remove k (member j w d) = ground (arith, get-remove k d)

pub get-put :
    (k j : Text) (v : Json) (d : Members)
    → get j (put k v d) ≡ (if eq_text j k then some v else get j d)
unfolding get put
get-put k j v end = ground arith
get-put k j v (member i w d) =
    ground (arith, eq_text_iff j k, eq_text_iff k i, eq_text_iff j i, get-put k j v d)
