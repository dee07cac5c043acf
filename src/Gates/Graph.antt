-- ===== src/Gates/Graph.antt =====
-- What a gate asks of the catalog (`GraphClient` and its answers in src/sidq/graph/client.py, and
-- src/sidq/gates/base.py). A client acts on the state of a world, may answer differently each time,
-- and may raise.
use sidq.Prelude.{
  ℕ, String, str_le, Bool, Option, none, some, List, [], ◌≡◌, Option-cases, inl, inr, refl,
}
use sidq.Prelude.Dict.{Dict, lookup, insert}
use sidq.Prelude.Sets.{inserted}
use sidq.Value.{str, field, end}
use sidq.Models.{Evidence, TouchedAsset, DatasetInfo}

pub record LineagePath : Type 0 where
  pub urns : List String
  pub granularity : String
  pub note : Option String

-- Where a mapping may be missing, none is a value that is no mapping.
pub record LineageResult : Type 0 where
  pub urns : List String
  pub entity_types : Option (Dict String)
  pub paths : List LineagePath
  pub columns : Option (Dict (List String))
  pub tags : Option (Dict (List String))
  pub granularity : String
  pub total : Option ℕ
  pub returned : Option ℕ
  pub complete : Bool

-- What a call returns, or the name of the exception that it raises.
pub data Reply {ℓ} (A : Type ℓ) : Type ℓ where
  answered : A → Reply A
  failed : String → Reply A

abbrev pub Asks : Type 0 → Type 0 → Type 0
Asks W A = W → Reply A × W

abbrev pub resume : {W A B : Type 0} → (A → Asks W B) → Reply A → W → Reply B × W
resume f (failed error) w = (failed error, w)
resume f (answered a) w = f a w

infixl 5 ◌>>=◌
abbrev pub ◌>>=◌ : {W A B : Type 0} → Asks W A → (A → Asks W B) → Asks W B
(m >>= f) w = resume f (m w).0 (m w).1

resume_rule :
    {W A B : Type 0} (P : Reply B → Type 0) (f : A → Asks W B) (reply : Reply A) (w : W)
    → ((error : String) → reply ≡ failed error → P (failed error))
    → ((a : A) → reply ≡ answered a → P (f a w).0)
    → P (resume f reply w).0
resume_rule P f (failed error) w h k = h error refl
resume_rule P f (answered a) w h k = k a refl

-- What holds of a failure, and of what follows an answer.
pub bind_rule :
    {W A B : Type 0} (P : Reply B → Type 0) (m : Asks W A) (f : A → Asks W B) (w : W)
    → ((error : String) → (m w).0 ≡ failed error → P (failed error))
    → ((a : A) → (m w).0 ≡ answered a → P (f a (m w).1).0)
    → P ((m >>= f) w).0
bind_rule P m f w h k = resume_rule P f (m w).0 (m w).1 h k

-- What holds of an answer, if there is one.
unfoldable pub WhenAnswered : {A : Type 0} → (A → Type 0) → Reply A → Type 0
WhenAnswered P (failed error) = Unit
WhenAnswered P (answered a) = P a

resume_when :
    {W A B : Type 0} (Q : A → Type 0) (P : B → Type 0) (f : A → Asks W B) (reply : Reply A) (w : W)
    → WhenAnswered Q reply
    → ((a : A) → Q a → WhenAnswered P (f a w).0)
    → WhenAnswered P (resume f reply w).0
unfolding WhenAnswered
resume_when Q P f (failed error) w h k = tt
resume_when Q P f (answered a) w h k = k a h

-- What follows an answer of which something holds.
pub bind_when :
    {W A B : Type 0} (Q : A → Type 0) (P : B → Type 0) (m : Asks W A) (f : A → Asks W B) (w : W)
    → WhenAnswered Q (m w).0
    → ((a : A) → Q a → WhenAnswered P (f a (m w).1).0)
    → WhenAnswered P ((m >>= f) w).0
bind_when Q P m f w h k = resume_when Q P f (m w).0 (m w).1 h k

pub anything : {A : Type 0} (reply : Reply A) → WhenAnswered (λ a. Unit) reply
unfolding WhenAnswered
anything (failed error) = tt
anything (answered a) = tt

abbrev pub give : {W A : Type 0} → A → Asks W A
give a w = (answered a, w)

abbrev pub throw : {W A : Type 0} → String → Asks W A
throw error w = (failed error, w)

pub record GraphClient (W : Type 0) : Type 0 where
  pub get_dataset : String → Asks W (Option DatasetInfo)
  pub find_dataset : String → Asks W (Option String)
  pub get_downstream : String → ℕ → Option String → Asks W LineageResult
  pub paths_between : String → String → Option String → Option String → Asks W (List LineagePath)

unfoldable pub graph_unavailable : String → String → Evidence
graph_unavailable subject error = record {
  kind = "graph_unavailable";
  subject = subject;
  detail = field "error" (str error) end;
  graph_links = [];
}

-- `sorted(change, key=lambda item: item.urn)`
abbrev pub by_urn : TouchedAsset → TouchedAsset → Bool
by_urn a b = str_le a.urn b.urn

abbrev pub Cache : Type 0
Cache = Dict (Option DatasetInfo)

asked :
    {W : Type 0}
    → String
    → Cache
    → Reply (Option DatasetInfo)
    → W
    → Reply (Option DatasetInfo) × (Cache × W)
asked urn cache (failed error) w = (failed error, (cache, w))
asked urn cache (answered info) w = (answered info, (insert urn info cache, w))

-- The inner function `dataset` of a gate: an answer is asked for once and kept, a failure is not.
unfoldable pub cached :
    {W : Type 0} → GraphClient W → String → Cache → W → Reply (Option DatasetInfo) × (Cache × W)
unfolding asked
cached graph urn cache w = elim (lookup urn cache) [
  | some info ↦ (answered info, (cache, w))
  | none ↦ asked urn cache (graph.get_dataset urn w).0 (graph.get_dataset urn w).1
]

-- What the catalog can say of a dataset in a run: what it shows, and the names of its errors.
pub record Says {W : Type 0} (graph : GraphClient W) (Shown : String → Option DatasetInfo → Type 0)
    (Broken : String → String → Type 0) : Type 0 where
  pub shown :
      (urn : String) (info : Option DatasetInfo) (w : W)
      → (graph.get_dataset urn w).0 ≡ answered info
      → Shown urn info
  pub broken :
      (urn : String) (error : String) (w : W)
      → (graph.get_dataset urn w).0 ≡ failed error
      → Broken urn error

-- A cache holds what the catalog has shown.
abbrev pub Holds : (String → Option DatasetInfo → Type 0) → Cache → Type 0
Holds Shown cache =
    (urn : String) (info : Option DatasetInfo) → lookup urn cache ≡ some info → Shown urn info

module _ (Shown : String → Option DatasetInfo → Type 0) (Broken : String → String → Type 0) where
  -- What a reply of the catalog says.
  abbrev pub Told : String → Reply (Option DatasetInfo) → Type 0
  Told urn (answered info) = Shown urn info
  Told urn (failed error) = Broken urn error

  asked-Told :
      {W : Type 0} (urn : String) (cache : Cache) (reply : Reply (Option DatasetInfo)) (w : W)
      → Told urn reply
      → Holds Shown cache
      → Told urn (asked urn cache reply w).0 × Holds Shown (asked urn cache reply w).1.0
  unfolding asked
  asked-Told urn cache (failed error) w t h = (t, h)
  asked-Told urn cache (answered info) w t h = (t, inserted Shown urn info cache t h)

  told :
      {W : Type 0} (graph : GraphClient W)
      → Says graph Shown Broken
      → (urn : String) (w : W) (reply : Reply (Option DatasetInfo))
      → (graph.get_dataset urn w).0 ≡ reply
      → Told urn reply
  told graph says urn w (failed error) e = says.broken urn error w e
  told graph says urn w (answered info) e = says.shown urn info w e

  pub cached-Told :
      {W : Type 0} (graph : GraphClient W)
      → Says graph Shown Broken
      → (urn : String) (cache : Cache) (w : W) → Holds Shown cache
      → Told urn (cached graph urn cache w).0 × Holds Shown (cached graph urn cache w).1.0
  unfolding cached
  cached-Told graph says urn cache w h = elim (Option-cases (lookup urn cache)) [
    | inl e ↦
        rw (e, cached)
          (asked-Told urn cache (graph.get_dataset urn w).0 (graph.get_dataset urn w).1
            (told graph says urn w (graph.get_dataset urn w).0 refl) h)
    | inr (info, e) ↦ rw (e, cached) (h urn info e, h)
  ]

  pub nothing-Holds : Holds Shown []
  unfolding lookup
  nothing-Holds urn info e = cc
