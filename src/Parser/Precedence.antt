-- ===== src/Parser/Precedence.antt =====
-- How the parser groups NOT, AND and OR.
use gs_dbengine.Base.{
  ℕ, zero, suc, ◌≤◌, ◌<◌, ◌≡◌, refl, sym, ◌∙◌, Bool, true, false, List, [], ◌∷◌, ◌++◌, append_assoc,
  map, length, length-append, All, Bytes, Result, ok, arith,
}
use gs_dbengine.Tokenizer.Types.{TokenType, Token}
use gs_dbengine.Parser.Ast.{LogicalOp, WhereExpr, no_where, SelectStmt}
use gs_dbengine.Parser.Cursor.{
  Parser, ◌>>=◌, type_code, is_type, peek_type, later, advance, check, branch, if_check, if_match,
}
use gs_dbengine.Parser.Having.{chain_rounds, chain_from, chain}
use gs_dbengine.Parser.Where.{
  join_where, parse_compare_expr, parse_not_expr, parse_and_expr, parse_or_expr,
}
use gs_dbengine.Parser.Takes.{Moves}
use gs_dbengine.Parser.Select.{parse_select_body}
use gs_dbengine.Parser.Tables.{parse_expr}
use gs_dbengine.Parser.Plain.{plain, erase}
use gs_dbengine.Parser.Plain.Statements.{parse_expr-Blind}

abbrev pub keyword : TokenType → Token
keyword type = record { type = type; value = []; line = 1; col = 1 }

-- Tokens, and what they stand for.
abbrev pub Item : Type 0 → Type 0
Item A = List Token × A

-- The parser takes the tokens of the item for its value, where `follows` holds of what follows.
abbrev pub Reads : {A : Type 0} → Parser A → (List Token → Type 0) → Item A → Type 0
Reads p Follows i = (rest : List Token) → Follows rest → p (i.0 ++ rest) ≡ (ok i.1, rest)

pub if_match-keyword :
    {A : Type 0} (type : TokenType) (p q : Parser A) (tokens : List Token)
    → Moves type
    → if_match type p q (keyword type ∷ tokens) ≡ p tokens
unfolding if_match if_check branch check peek_type advance later ◌>>=◌
if_match-keyword type p q tokens moves =
    let same : is_type type type ≡ true = ground arith in rw (same, moves) refl

pub if_match-other :
    {A : Type 0} (type : TokenType) (p q : Parser A) (tokens : List Token)
    → check type tokens ≡ false
    → if_match type p q tokens ≡ q tokens
unfolding if_match if_check branch
if_match-other type p q tokens other = rw other refl

-- Operands from the left.
abbrev pub joined : {A : Type 0} → (A → A → A) → A → List (Item A) → A
joined join left [] = left
joined join left ((tokens, a) ∷ items) = joined join (join left a) items

abbrev pub further : {A : Type 0} → TokenType → List (Item A) → List Token
further op [] = []
further op ((tokens, a) ∷ items) = keyword op ∷ (tokens ++ further op items)

-- Items with an operator between them.
abbrev pub chained : {A : Type 0} → TokenType → (A → A → A) → Item A × List (Item A) → Item A
chained op join ((tokens, a), items) = (tokens ++ further op items, joined join a items)

module _ {A : Type 0} (op : TokenType) (join : A → A → A) (operand : Parser A)
    (Follows : List Token → Type 0) (moves : Moves op)
    (goes_on : (tokens : List Token) → Follows (keyword op ∷ tokens)) where
  length-further : (items : List (Item A)) → length items ≤ length (further op items)
  length-further [] = omega arith
  length-further ((tokens, a) ∷ items) =
      omega (arith, length-further items, length-append tokens (further op items))

  follows_further :
      (items : List (Item A)) (rest : List Token)
      → Follows rest
      → Follows (further op items ++ rest)
  follows_further [] rest h = h
  follows_further ((tokens, a) ∷ items) rest h = goes_on ((tokens ++ further op items) ++ rest)

  chain_rounds-Reads :
      (fuel : ℕ) (items : List (Item A)) (left : A) (rest : List Token)
      → length items < fuel
      → All (Reads operand Follows) items
      → Follows rest
      → check op rest ≡ false
      → chain_rounds fuel op join operand left (further op items ++ rest)
        ≡ (ok (joined join left items), rest)
  unfolding chain_rounds ◌>>=◌
  chain_rounds-Reads zero items left rest l h f other = absurd (omega arith)
  chain_rounds-Reads (suc fuel) [] left rest l h f other = if_match-other op _ _ rest other
  chain_rounds-Reads (suc fuel) ((tokens, a) ∷ items) left rest l (r, h) f other =
      if_match-keyword op _ _ ((tokens ++ further op items) ++ rest) moves
      ∙ rw
          (
            append_assoc tokens (further op items) rest,
            r (further op items ++ rest) (follows_further items rest f),
          )
          (chain_rounds-Reads fuel items (join left a) rest (omega arith) h f other)

  chain-Reads :
      (first : Item A) (items : List (Item A))
      → Reads operand Follows first
      → All (Reads operand Follows) items
      → Reads
          (chain op join operand)
          (λ rest. Follows rest × (check op rest ≡ false))
          (chained op join (first, items))
  unfolding chain chain_from ◌>>=◌
  chain-Reads (tokens, a) items r h rest (f, other) =
      rw
        (
          append_assoc tokens (further op items) rest,
          r (further op items ++ rest) (follows_further items rest f),
        )
        (chain_rounds-Reads (suc (length (further op items ++ rest))) items a rest
          (omega (arith, length-further items, length-append (further op items) rest)) h f other)

-- A comparison, and whether NOT stands before it.
abbrev pub Term : Type 0
Term = Bool × Item WhereExpr

abbrev pub negated : Term → Item WhereExpr
negated (false, i) = i
negated (true, (tokens, e)) =
    (keyword TokenType.not ∷ tokens, WhereExpr.logical LogicalOp.not e no_where)

-- Terms with AND between them, and such with OR between them.
abbrev pub Conjunction : Type 0
Conjunction = Term × List Term

abbrev pub conjunction : Conjunction → Item WhereExpr
conjunction (first, terms) =
    chained TokenType.and (join_where LogicalOp.and) (negated first, map negated terms)

abbrev pub Disjunction : Type 0
Disjunction = Conjunction × List Conjunction

abbrev pub disjunction : Disjunction → Item WhereExpr
disjunction (first, others) =
    chained TokenType.or (join_where LogicalOp.or) (conjunction first, map conjunction others)

-- What follows a comparison does not qualify its last column.
abbrev pub NoDot : List Token → Type 0
NoDot rest = check TokenType.dot rest ≡ false

module _ (stof : Bytes → Result ℕ) (sub : Parser SelectStmt) where
  -- A comparison does not begin with NOT, and the parser reads it.
  abbrev pub IsTerm : Term → Type 0
  IsTerm (is_negated, i) =
      ((rest : List Token) → check TokenType.not (i.0 ++ rest) ≡ false)
      × Reads (parse_compare_expr stof sub) NoDot i

  abbrev pub IsConjunction : Conjunction → Type 0
  IsConjunction (first, terms) = IsTerm first × All IsTerm terms

  parse_not_expr-Reads : (t : Term) → IsTerm t → Reads (parse_not_expr stof sub) NoDot (negated t)
  unfolding parse_not_expr ◌>>=◌ type_code
  parse_not_expr-Reads (false, (tokens, e)) (begins, r) rest f =
      if_match-other TokenType.not _ _ (tokens ++ rest) (begins rest) ∙ r rest f
  parse_not_expr-Reads (true, (tokens, e)) (begins, r) rest f =
      if_match-keyword TokenType.not _ _ (tokens ++ rest) refl ∙ rw (r rest f) refl

  terms-Reads :
      (terms : List Term)
      → All IsTerm terms
      → All (Reads (parse_not_expr stof sub) NoDot) (map negated terms)
  terms-Reads [] h = tt
  terms-Reads (t ∷ terms) (h, hs) = (parse_not_expr-Reads t h, terms-Reads terms hs)

  abbrev pub NoAnd : List Token → Type 0
  NoAnd rest = NoDot rest × (check TokenType.and rest ≡ false)

  parse_and_expr-Reads :
      (c : Conjunction) → IsConjunction c → Reads (parse_and_expr stof sub) NoAnd (conjunction c)
  unfolding parse_and_expr type_code check peek_type
  parse_and_expr-Reads (first, terms) (h, hs) =
      chain-Reads TokenType.and (join_where LogicalOp.and) (parse_not_expr stof sub) NoDot refl
        (λ tokens. refl) (negated first) (map negated terms) (parse_not_expr-Reads first h)
        (terms-Reads terms hs)

  conjunctions-Reads :
      (cs : List Conjunction)
      → All IsConjunction cs
      → All (Reads (parse_and_expr stof sub) NoAnd) (map conjunction cs)
  conjunctions-Reads [] h = tt
  conjunctions-Reads (c ∷ cs) (h, hs) = (parse_and_expr-Reads c h, conjunctions-Reads cs hs)

  parse_or_expr-disjunction :
      (first : Conjunction) (others : List Conjunction) (rest : List Token)
      → IsConjunction first
      → All IsConjunction others
      → NoAnd rest
      → check TokenType.or rest ≡ false
      → parse_or_expr stof sub ((disjunction (first, others)).0 ++ rest)
        ≡ (ok (disjunction (first, others)).1, rest)
  unfolding parse_or_expr type_code check peek_type
  parse_or_expr-disjunction first others rest h hs f other =
      chain-Reads TokenType.or (join_where LogicalOp.or) (parse_and_expr stof sub) NoAnd refl
        (λ tokens. (refl, refl)) (conjunction first) (map conjunction others)
        (parse_and_expr-Reads first h) (conjunctions-Reads others hs) rest (f, other)

-- Of comparisons that the parser reads, whatever follows them but a dot, with NOT before some, AND
-- between them in groups and OR between the groups, wherever the tokens stand and however keywords
-- are spelled: parse_or_expr reads them all, up to a token that is no dot, AND or OR, and returns
-- the groups joined by OR from the left, each its comparisons joined by AND from the left, where
-- NOT belongs to one comparison.
pub parse_expr-disjunction :
    (stof : Bytes → Result ℕ) (tokens : List Token) (first : Conjunction)
    (others : List Conjunction) (rest : List Token)
    → plain tokens ≡ (disjunction (first, others)).0 ++ rest
    → IsConjunction stof (parse_select_body stof) first
    → All (IsConjunction stof (parse_select_body stof)) others
    → NoAnd stof (parse_select_body stof) rest
    → check TokenType.or rest ≡ false
    → erase (parse_expr stof tokens) ≡ (ok (disjunction (first, others)).1, rest)
unfolding parse_expr
parse_expr-disjunction stof tokens first others rest e h hs f other =
    sym ((parse_expr-Blind stof).run tokens)
    ∙ rw e (parse_or_expr-disjunction stof (parse_select_body stof) first others rest h hs f other)
