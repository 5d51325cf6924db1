-- ===== src/ContainerManager/DockerProxy/Lists.antt =====
-- isSameList of container_manager/docker_proxy.go: what it decides, and for which lists it is the
-- comparison up to order that its name promises.
use mathlib.Core.List
use mathlib.Core.List.{
  Mem, Nodup, Perm, mem-cons, mem-cons_self, mem-cons_of_mem, not-mem-nil, Subset, Mem-prop,
}
use mathlib.Core.List.Nodup
use mathlib.Core.List.Perm
use mathlib.Core.List.Subperm
use mathlib.Core.Logic.Or
use mathlib.Core.Nat
use native.Mathlib.Bridge.{to_ℕ, from_ℕ, to_ℕ-from_ℕ}
use newrr.Common.{
  suc, ◌≡◌, ◌↔◌, refl, subst, sym, ap, ◌∙◌, true, List, [], ◌∷◌, Text, text_eq, text_eq_iff,
  text_eq_refl, any, length, arith, Bool-cases, inl, inr,
}
use newrr.ContainerManager.DockerProxy.{covers, is_same_list}

any-Mem : (x : Text) (b : List Text) → any (text_eq x) b ≡ true → Mem x b
any-Mem x [] h = absurd (ground arith)
any-Mem x (y ∷ b) h = elim (Bool-cases (text_eq x y)) [
  | inl e ↦ subst (λ z. Mem x (z ∷ b)) ((text_eq_iff x y).0 e) mem-cons_self
  | inr e ↦ mem-cons_of_mem y (any-Mem x b (ground arith))
]

Mem-any : (x : Text) (b : List Text) → Mem x b → any (text_eq x) b ≡ true
Mem-any x [] m = absurd (not-mem-nil m)
Mem-any x (y ∷ b) m =
    Or.elim (hlevel) (mem-cons.0 m) (λ e. ground (arith, e, text_eq_refl x))
      (λ n. ground (arith, Mem-any x b n))

covers-Subset : (a b : List Text) → covers a b ≡ true → Subset a b
unfolding covers
covers-Subset [] b h z m = absurd (not-mem-nil m)
covers-Subset (x ∷ a) b h z m =
    Or.elim Mem-prop (mem-cons.0 m) (λ e. subst (λ y. Mem y b) (sym e) (any-Mem x b (ground arith)))
      (λ n. covers-Subset a b (ground arith) z n)

Subset-covers : (a b : List Text) → Subset a b → covers a b ≡ true
unfolding covers
Subset-covers [] b h = refl
Subset-covers (x ∷ a) b h =
    ground
      (arith, Mem-any x b (h x mem-cons_self), Subset-covers a b (λ z m. h z (mem-cons_of_mem x m)))

from_ℕ-length : (a : List Text) → from_ℕ (List.length a) ≡ length a
from_ℕ-length [] = refl
from_ℕ-length (x ∷ a) = ap suc (from_ℕ-length a)

same_length : (a b : List Text) → length a ≡ length b → List.length a ≡ List.length b
same_length a b e =
    sym (to_ℕ-from_ℕ (List.length a))
    ∙ ap to_ℕ (from_ℕ-length a ∙ e ∙ sym (from_ℕ-length b))
    ∙ to_ℕ-from_ℕ (List.length b)

-- For lists that are as long, the test passes exactly when each element of the first is in the
-- second; for lists of other lengths it fails.
pub is_same_list_iff :
    (a b : List Text) → (is_same_list a b ≡ true) ↔ ((length a ≡ length b) × Subset a b)
unfolding is_same_list
is_same_list_iff a b = (
  λ h. (ground arith, covers-Subset a b (ground arith)),
  λ (e, s). ground (arith, e, Subset-covers a b s),
)

-- A list without repetitions passes the test against exactly its permutations.
pub is_same_list-perm : (a b : List Text) → Nodup a → (is_same_list a b ≡ true) ↔ Perm a b
is_same_list-perm a b n = (
  λ h.
      let (e, s) = (is_same_list_iff a b).0 h in
      Subperm.perm_of_length_le (Nodup.subperm n s) (Nat.le_of_eq (sym (same_length a b e))),
  λ p.
      (is_same_list_iff a b).1
        (sym (from_ℕ-length a) ∙ ap from_ℕ (Perm.length-eq p) ∙ from_ℕ-length b, Perm.subset p),
)
