-- ===== src/Receipt/Badges.antt =====
-- The managed badges of an entity (src/sidq/receipt/write.py).
use sidq.Prelude.{
  String, str_eq, Bool, false, not, ◌||◌, Option, none, some, List, [], ◌∷◌, ◌++◌, keep, length,
  ltb, if◌then◌else◌,
}
use sidq.Prelude.Sets.{member, distinct}
use sidq.Value.{Value, null, bool, int, str, arr, tup, obj, Items, nil, cons, Fields, end, field}
use sidq.Catalog.Checks.Columns.{is_empty_list}
use sidq.Receipt.State.{get}

abbrev pub Surface : Type 0
Surface = List String × Bool

-- `urn` where it is a text that is not empty.
unfoldable pub text_urn : Value → List String
text_urn (str s) = if str_eq s "" then [] else s ∷ []
text_urn v = []

nested_urn : Value → List String
unfolding text_urn
nested_urn (obj fs) = text_urn (get "urn" fs)
nested_urn v = []

unfoldable pub direct_urns : Fields → List String
unfolding nested_urn text_urn
direct_urns fs =
    distinct (text_urn (get "tagUrn" fs) ++ text_urn (get "urn" fs) ++ nested_urn (get "tag" fs))

-- The end of `_tag_surface_urns`, for the surface under `tags`, if there is one.
unfoldable pub wrap_surface : List String → Option Surface → Surface
wrap_surface direct none = (direct, ltb 1 (length direct))
wrap_surface direct (some wrapped) =
    (direct ++ wrapped.0, ltb 1 (length direct) || (wrapped.1 || not (is_empty_list direct)))

-- `tags_surface` is `_tag_surface_urns` of the value under `tags`.
unfoldable mutual
  unfolding direct_urns text_urn wrap_surface

  pub tag_surface_urns : Value → Surface
  tag_surface_urns (str s) = (text_urn (str s), false)
  tag_surface_urns (arr items) = items_surface items
  tag_surface_urns (tup items) = items_surface items
  tag_surface_urns (obj fs) = wrap_surface (direct_urns fs) (tags_surface fs)
  tag_surface_urns null = ([], false)
  tag_surface_urns (bool b) = ([], false)
  tag_surface_urns (int n) = ([], false)

  pub items_surface : Items → Surface
  items_surface nil = ([], false)
  items_surface (cons v vs) =
      let first = tag_surface_urns v in
      let rest = items_surface vs in (first.0 ++ rest.0, first.1 || rest.1)

  pub tags_surface : Fields → Option Surface
  tags_surface end = none
  tags_surface (field key v fs) =
      let here = tag_surface_urns v in
      let rest = tags_surface fs in if str_eq key "tags" then some here else rest

abbrev pub managed_badges : List String
managed_badges = "urn:li:tag:sidq:verified" ∷ "urn:li:tag:sidq:blocked" ∷ []

unfoldable pub managed_badge_state : Fields → Surface
unfolding tag_surface_urns
managed_badge_state entity =
    let a = tag_surface_urns (get "globalTags" entity) in
    let b = tag_surface_urns (get "global_tags" entity) in
    let c = tag_surface_urns (get "tags" entity) in
    (distinct (keep (λ urn. member urn managed_badges) (a.0 ++ b.0 ++ c.0)), a.1 || (b.1 || c.1))
