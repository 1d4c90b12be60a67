-- ===== src/Tokenizer/Words.antt =====
-- Keywords are recognised whatever their case.
use gs_dbengine.Base.{
  ◌≡◌, refl, ap, sym, ◌∙◌, subst, ◌⊎◌, inl, inr, ◌↔◌, Bool, true, false, ◌&&◌, List, [], ◌∷◌, Bytes,
  all, map, arith, Bool-cases,
}
use gs_dbengine.Row.{list_eq}
use gs_dbengine.Catalog.Schema.{text_eq}
use gs_dbengine.Tokenizer.Types.{TokenType, token_type_name}
use gs_dbengine.Tokenizer.Keywords.{to_upper, keywords, find_keyword, keyword_or_identifier}

&&-left : (a b : Bool) → (a && b) ≡ true → a ≡ true
&&-left a b h = ground arith

&&-right : (a b : Bool) → (a && b) ≡ true → b ≡ true
&&-right a b h = ground arith

text_eq-eq : (s t : Bytes) → text_eq s t ≡ true → s ≡ t
unfolding text_eq list_eq
text_eq-eq [] [] h = refl
text_eq-eq [] (c ∷ t) h = cc
text_eq-eq (b ∷ s) [] h = cc
text_eq-eq (b ∷ s) (c ∷ t) h = ground (arith, text_eq-eq s t)

-- The types that stand for a word of the language.
abbrev pub is_keyword : TokenType → Bool
is_keyword TokenType.integer_literal = false
is_keyword TokenType.float_literal = false
is_keyword TokenType.string_literal = false
is_keyword TokenType.identifier = false
is_keyword TokenType.lparen = false
is_keyword TokenType.rparen = false
is_keyword TokenType.comma = false
is_keyword TokenType.semicolon = false
is_keyword TokenType.star = false
is_keyword TokenType.dot = false
is_keyword TokenType.eq = false
is_keyword TokenType.neq = false
is_keyword TokenType.lt = false
is_keyword TokenType.gt = false
is_keyword TokenType.lte = false
is_keyword TokenType.gte = false
is_keyword TokenType.plus = false
is_keyword TokenType.minus = false
is_keyword TokenType.end_of_file = false
is_keyword _ = true

find_keyword-name :
    (upper : Bytes) (table : List (Bytes × TokenType))
    → all (λ r. text_eq r.0 (token_type_name r.1)) table ≡ true
    → (find_keyword upper table ≡ TokenType.identifier)
      ⊎ (upper ≡ token_type_name (find_keyword upper table))
unfolding find_keyword
find_keyword-name upper [] h = inl refl
find_keyword-name upper ((name, t) ∷ table) h = elim (Bool-cases (text_eq upper name)) [
  | inl e ↦
      inr (rw e (text_eq-eq upper name e ∙ text_eq-eq name (token_type_name t) (&&-left _ _ h)))
  | inr e ↦ rw e (find_keyword-name upper table (&&-right _ _ h))
]

find_keyword-token_type_name :
    (t : TokenType) → is_keyword t ≡ true → find_keyword (token_type_name t) keywords ≡ t
unfolding find_keyword token_type_name text_eq list_eq
find_keyword-token_type_name TokenType.identifier h = cc
find_keyword-token_type_name _ h = ground arith

-- keyword_or_identifier takes a word for the keyword t exactly where the word, its letters
-- upper-cased, is the text that token_type_name gives t: so whatever the case of its letters.
pub keyword_or_identifier_iff :
    (word : Bytes) (t : TokenType)
    → is_keyword t ≡ true
    → (keyword_or_identifier word ≡ t) ↔ (map to_upper word ≡ token_type_name t)
unfolding keyword_or_identifier text_eq token_type_name
keyword_or_identifier_iff word t h = (
  λ e. elim (find_keyword-name (map to_upper word) keywords refl) [
    | inl x ↦
        let y : is_keyword TokenType.identifier ≡ true =
          subst (λ u. is_keyword u ≡ true) (sym e ∙ x) h in
        cc
    | inr x ↦ x ∙ ap token_type_name e
  ],
  λ e. ap (λ u. find_keyword u keywords) e ∙ find_keyword-token_type_name t h,
)
