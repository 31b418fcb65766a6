-- ===== src/Pipeline/Grouping/UnionFind.antt =====
-- `_UnionFind` of src/aiops_apm/pipeline/grouping.py. The state is the list `_parent`. Both loops
-- of `find` take fuel, one more than the number of items.
pub mod Forest
use aiops_apm_anomaly_detect.Prelude.{
  ℕ, zero, suc, ◌+◌, Bool, true, false, List, [], ◌∷◌, length, get_or, set, ◌==◌, if◌then◌else◌,
}

-- `list(range(i, i + n))`
unfoldable pub range : ℕ → ℕ → List ℕ
range i zero = []
range i (suc n) = i ∷ range (suc i) n

-- `__init__`
unfoldable pub singletons : ℕ → List ℕ
unfolding range
singletons n = range 0 n

-- `self._parent[x]`
abbrev pub parent : List ℕ → ℕ → ℕ
parent p x = get_or p x x

-- `while self._parent[root] != root: root = self._parent[root]`
unfoldable pub climb : ℕ → List ℕ → ℕ → ℕ
climb zero p root = root
climb (suc fuel) p root = elim (parent p root == root) [
  | true ↦ root
  | false ↦ climb fuel p (parent p root)
]

-- `while self._parent[x] != root: self._parent[x], x = root, self._parent[x]`
unfoldable pub compress : ℕ → List ℕ → ℕ → ℕ → List ℕ
compress zero p root x = p
compress (suc fuel) p root x = elim (parent p x == root) [
  | true ↦ p
  | false ↦ compress fuel (set p x root) root (parent p x)
]

unfoldable pub find : List ℕ → ℕ → ℕ × List ℕ
unfolding climb compress
find p x = let root = climb (suc (length p)) p x in (root, compress (suc (length p)) p root x)

unfoldable pub union : List ℕ → ℕ → ℕ → List ℕ
union p a b =
    let (ra, p') = find p a in let (rb, p'') = find p' b in if ra == rb then p'' else set p'' rb ra
