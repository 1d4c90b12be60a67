-- ===== src/Catalog/Texts.antt =====
-- std::unordered_map with texts as keys, as an association list in the order of iteration, which
-- C++ leaves open.
use gs_dbengine.Base.{List, [], ◌∷◌, Bytes, Option, none, some, if◌then◌else◌}
use gs_dbengine.Catalog.Schema.{text_eq}

module _ {ℓ} {V : Type ℓ} where
  unfoldable pub find_text : Bytes → List (Bytes × V) → Option V
  find_text k [] = none
  find_text k ((j, v) ∷ m) = if text_eq j k then some v else find_text k m

  unfoldable pub insert_text : Bytes → V → List (Bytes × V) → List (Bytes × V)
  insert_text k v [] = (k, v) ∷ []
  insert_text k v ((j, w) ∷ m) =
      let rest = insert_text k v m in if text_eq j k then (k, v) ∷ m else (j, w) ∷ rest

  unfoldable pub erase_text : Bytes → List (Bytes × V) → List (Bytes × V)
  erase_text k [] = []
  erase_text k ((j, w) ∷ m) =
      let rest = erase_text k m in if text_eq j k then rest else (j, w) ∷ rest
