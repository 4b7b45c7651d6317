-- ===== src/Fsg/History/Cell.antt =====
-- One list of the table: for each right context it holds the best entry, and only that.
use pocketsphinx.Base.{
  ℕ, ◌≡◌, refl, true, Option, none, some, List, [], ◌∷◌, ℤ, ◌≤ℤ◌, ltb_ℤ, if◌then◌else◌, arith,
  Bool-cases, inl, inr,
}
use pocketsphinx.Fsg.History.{Link, Entry, Context, fsg_pnode_ctxt_sub, is_zero_word, prune, insert}
use pocketsphinx.Fsg.History.Bits.{bit, sub_bit, sub_zero}

-- An entry without its contexts: link, score, predecessor, frame, left context.
abbrev pub HistoryPath : Type 0
HistoryPath = Option Link × ℤ × ℤ × ℤ × ℕ

abbrev pub path : Entry → HistoryPath
path e = (e.fsglink, e.score, e.pred, e.frame, e.lc)

-- The path kept for a right context.
unfoldable pub view : List Entry → ℕ → ℕ → Option HistoryPath
view [] w b = none
view (e ∷ es) w b = if bit e.rc w b then some (path e) else view es w b

-- The better of two paths; at equal scores the old one.
abbrev pub better : Option HistoryPath → HistoryPath → HistoryPath
better none p = p
better (some q) p = if ltb_ℤ q.1 p.1 then p else q

abbrev pub AtMost : ℤ → List Entry → Type 0
AtMost v [] = Unit
AtMost v (e ∷ es) = (e.score ≤ℤ v) × AtMost v es

-- Best score first.
abbrev pub IsSorted : List Entry → Type 0
IsSorted [] = Unit
IsSorted (e ∷ es) = AtMost e.score es × IsSorted es

-- No two entries share a context.
abbrev pub IsDisjoint : List Entry → Type 0
IsDisjoint [] = Unit
IsDisjoint (e ∷ es) = ((w b : ℕ) → bit e.rc w b ≡ true → view es w b ≡ none) × IsDisjoint es

pub prune-view :
    (es : List Entry) (rc : Context) (w b : ℕ)
    → view (prune es rc) w b ≡ (if bit rc w b then none else view es w b)
unfolding prune view
prune-view [] rc w b = ground arith
prune-view (e ∷ es) rc w b =
    ground (arith, prune-view es rc w b, sub_bit e.rc rc w b, sub_zero e.rc rc w b)

abbrev PathAtMost : ℤ → Option HistoryPath → Type 0
PathAtMost v none = Unit
PathAtMost v (some q) = q.1 ≤ℤ v

view-AtMost : (es : List Entry) (v : ℤ) (w b : ℕ) → AtMost v es → PathAtMost v (view es w b)
unfolding view
view-AtMost [] v w b h = tt
view-AtMost (x ∷ es) v w b h = ground (arith, view-AtMost es v w b)

prune-AtMost : (es : List Entry) (rc : Context) (v : ℤ) → AtMost v es → AtMost v (prune es rc)
unfolding prune
prune-AtMost [] rc v h = tt
prune-AtMost (e ∷ es) rc v h = ground (arith, prune-AtMost es rc v)

prune-IsSorted : (es : List Entry) (rc : Context) → IsSorted es → IsSorted (prune es rc)
unfolding prune
prune-IsSorted [] rc h = tt
prune-IsSorted (e ∷ es) rc h = ground (arith, prune-IsSorted es rc, prune-AtMost es rc e.score)

AtMost-trans : (es : List Entry) (v v' : ℤ) → v ≤ℤ v' → AtMost v es → AtMost v' es
AtMost-trans [] v v' h a = tt
AtMost-trans (e ∷ es) v v' h a = (omega arith, AtMost-trans es v v' h a.1)

pub insert-AtMost :
    (es : List Entry) (new : Entry) (v : ℤ)
    → new.score ≤ℤ v
    → AtMost v es
    → AtMost v (insert es new)
unfolding insert
insert-AtMost [] new v h a = (h, tt)
insert-AtMost (e ∷ es) new v h a = ground (
  arith,
  prune-AtMost (e ∷ es) new.rc v,
  insert-AtMost es (record new { rc = (fsg_pnode_ctxt_sub new.rc e.rc).0 }) v,
)

-- Insertion keeps the order.
pub insert-IsSorted : (es : List Entry) (new : Entry) → IsSorted es → IsSorted (insert es new)
unfolding insert
insert-IsSorted [] new h = (tt, tt)
insert-IsSorted (e ∷ es) new h = ground (
  arith,
  prune-IsSorted (e ∷ es) new.rc,
  prune-AtMost (e ∷ es) new.rc new.score,
  AtMost-trans es e.score new.score,
  insert-IsSorted es (record new { rc = (fsg_pnode_ctxt_sub new.rc e.rc).0 }),
  insert-AtMost es (record new { rc = (fsg_pnode_ctxt_sub new.rc e.rc).0 }) e.score,
)

-- Inserting into a list sorted by score keeps, for each right context that the new entry applies to,
-- the better of the old path and the new one, and for every other right context the old path.
pub insert-view :
    (es : List Entry) (new : Entry) (w b : ℕ)
    → IsSorted es
    → view (insert es new) w b
      ≡ (if bit new.rc w b then some (better (view es w b) (path new)) else view es w b)
unfolding insert view
insert-view [] new w b h = ground arith
insert-view (e ∷ es) new w b h =
    let less = record new { rc = (fsg_pnode_ctxt_sub new.rc e.rc).0 } in
    ground (
      arith,
      prune-view (e ∷ es) new.rc w b,
      view-AtMost es e.score w b h.0,
      insert-view es less w b,
      sub_bit new.rc e.rc w b,
      sub_zero new.rc e.rc w b,
    )

prune-IsDisjoint : (es : List Entry) (rc : Context) → IsDisjoint es → IsDisjoint (prune es rc)
unfolding prune
prune-IsDisjoint [] rc h = tt
prune-IsDisjoint (e ∷ es) rc h = elim (Bool-cases (is_zero_word (fsg_pnode_ctxt_sub e.rc rc).1)) [
  | inl z ↦ rw z (prune-IsDisjoint es rc h.1)
  | inr z ↦ rw z (
    λ w b t. ground (arith, prune-view es rc w b, sub_bit e.rc rc w b, h.0 w b),
    prune-IsDisjoint es rc h.1,
  )
]

pub insert-IsDisjoint :
    (es : List Entry) (new : Entry) → IsSorted es → IsDisjoint es → IsDisjoint (insert es new)
unfolding insert
insert-IsDisjoint [] new s h = (λ w b t. unfold view in refl, tt)
insert-IsDisjoint (e ∷ es) new s h =
    let less = record new { rc = (fsg_pnode_ctxt_sub new.rc e.rc).0 } in
    elim (Bool-cases (ltb_ℤ e.score new.score)) [
      | inl lt ↦ rw lt (
        λ w b t. ground (arith, prune-view (e ∷ es) new.rc w b),
        prune-IsDisjoint (e ∷ es) new.rc h,
      )
      | inr ge ↦ elim (Bool-cases (is_zero_word (fsg_pnode_ctxt_sub new.rc e.rc).1)) [
        | inl z ↦ rw (ge, z) h
        | inr z ↦
            rw (ge, z)
              (
                λ w b t.
                    ground (arith, insert-view es less w b s.1, sub_bit new.rc e.rc w b, h.0 w b),
                insert-IsDisjoint es less s.1 h.1,
              )
      ]
    ]
