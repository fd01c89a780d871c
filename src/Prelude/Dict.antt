-- ===== src/Prelude/Dict.antt =====
-- Python's `dict` as an association list in insertion order: a write to a key that is there keeps
-- its place, a write to a new key goes to the end.
use Prim.Native.Nat.{ℕ, ◌+◌}
use mathlib.Core.Path.{◌≡◌, refl}
use mathlib.Core.Logic.{inl, inr}
use mathlib.Core.Option.{Option, none, some}
use mathlib.Core.List.{List, [], ◌∷◌, map}
use native.Mathlib.Omega.{arith}
use claude_agent_wrap.Prelude.Tests.{if◌then◌else◌, Bool-cases}
use claude_agent_wrap.Prelude.Lists.{sum_by}
use claude_agent_wrap.Prelude.Keys.{HasEq, ◌==◌}

abbrev pub Dict {ℓ κ} : Type ℓ → Type κ → Type (ℓ ⊔ κ)
Dict K V = List (K × V)

module _ {ℓ κ} {K : Type ℓ} {V : Type κ} where
  abbrev pub keys : Dict K V → List K
  keys = map (λ e. e.0)

  abbrev pub values : Dict K V → List V
  values = map (λ e. e.1)

abbrev pub or_else {ℓ} : {V : Type ℓ} → Option V → V → V
or_else none d = d
or_else (some v) d = v

module _ {ℓ κ} {K : Type ℓ} ⦃e : HasEq K⦄ {V : Type κ} where
  -- `d.get(k)`
  unfoldable pub get : K → Dict K V → Option V
  get k [] = none
  get k ((j, v) ∷ m) = if j == k then some v else get k m

  -- `d[k] = v`
  unfoldable pub put : K → V → Dict K V → Dict K V
  put k v [] = (k, v) ∷ []
  put k v ((j, w) ∷ m) = let rest = put k v m in if j == k then (j, v) ∷ m else (j, w) ∷ rest

  -- `d[k] = f(d.get(k, new))`: the read-modify-write of `setdefault` and `defaultdict`.
  unfoldable pub update : K → V → (V → V) → Dict K V → Dict K V
  update k new f [] = (k, f new) ∷ []
  update k new f ((j, w) ∷ m) =
      let rest = update k new f m in if j == k then (j, f w) ∷ m else (j, w) ∷ rest

  pub get-put :
      (k j : K) (v : V) (m : Dict K V) → get j (put k v m) ≡ (if k == j then some v else get j m)
  unfolding get put
  get-put k j v [] = refl
  get-put k j v ((i, w) ∷ m) =
      ground (arith, e.equals_iff k j, e.equals_iff i k, e.equals_iff i j, get-put k j v m)

  pub get-update :
      (k j : K) (new : V) (f : V → V) (m : Dict K V)
      → get j (update k new f m) ≡ (if k == j then some (f (or_else (get k m) new)) else get j m)
  unfolding get update
  get-update k j new f [] = refl
  get-update k j new f ((i, w) ∷ m) =
      ground (arith, e.equals_iff k j, e.equals_iff i k, e.equals_iff i j, get-update k j new f m)

  -- A measure summed over the values grows by what the update adds to one of them.
  pub sum_by-update :
      (g : V → ℕ) (k : K) (new : V) (f : V → V) (n : ℕ) (m : Dict K V)
      → ((v : V) → g (f v) ≡ g v + n)
      → g new ≡ 0
      → sum_by g (values (update k new f m)) ≡ sum_by g (values m) + n
  unfolding update
  sum_by-update g k new f n [] h z = omega (arith, h new)
  sum_by-update g k new f n ((j, w) ∷ m) h z = elim (Bool-cases (j == k)) [
    | inl same ↦ rw same (omega (arith, h w))
    | inr other ↦ rw other (omega (arith, sum_by-update g k new f n m h z))
  ]
