-- ===== src/Network/Router/Cells.antt =====
-- The routing table, cell by cell: what a write and the nested loops over it leave.
use dstest.Prelude.{
  ℕ, ◌+◌, ◌≡◌, ◌<◌, ◌≤◌, ◌∙◌, ap, ◌&&◌, Bool, false, List, [], Outcome, ok, ◌>>=◌, pos, length,
  get_or, set, length-set, get_or-set_self, get_or-set_ne, at-lt, put-lt, ◌==◌, if◌then◌else◌,
  Returns, Returns-map, for_range, for_range-Returns, arith, ℕ_discrete,
}
use dstest.Network.Router.{Table, set_cell, fill_cells}

abbrev pub row : Table → ℕ → List Bool
row t x = get_or t x []

abbrev pub cell : Table → ℕ → ℕ → Bool
cell t x y = get_or (row t x) y false

-- The table has `n` rows, and the first `m` of them have `n` cells.
pub record HasRows (n m : ℕ) (t : Table) : Type 0 where
  pub height : length t ≡ n
  pub widths : (x : ℕ) → x < m → length (row t x) ≡ n

abbrev pub IsSquare : ℕ → Table → Type 0
IsSquare n t = HasRows n n t

-- The cells of `t` are those that `f` gives.
abbrev pub Cells : ℕ → (ℕ → ℕ → Bool) → Table → Type 0
Cells n f t = (x y : ℕ) → x < n → y < n → cell t x y ≡ f x y

-- `t'` is `t` with one cell written.
abbrev pub Written : ℕ → ℕ → Table → ℕ → ℕ → Bool → Table → Type 0
Written n m t a b v t' =
    HasRows n m t' × ((x y : ℕ) → cell t' x y ≡ (if x == a && y == b then v else cell t x y))

module _ {n m : ℕ} (t : Table) (rows : HasRows n m t) (a b : ℕ) (v : Bool) (la : a < m) (le : m ≤ n)
    (lb : b < n) where
  abbrev written : Table
  written = set t a (set (row t a) b v)

  in_table : a < length t
  in_table = omega (arith, rows.height)

  in_row : b < length (row t a)
  in_row = omega (arith, rows.widths a la)

  set_cell-eq : set_cell t (pos a) (pos b) v ≡ ok written
  unfolding set_cell
  set_cell-eq =
      rw (at-lt t a [] in_table)
        (rw (put-lt (row t a) b v in_row) (put-lt t a (set (row t a) b v) in_table))

  row-written : (x : ℕ) → row written x ≡ (if x == a then set (row t a) b v else row t x)
  row-written x = elim (ℕ_discrete a x) [
    | yes e ↦ rw (← e) (get_or-set_self t a (set (row t a) b v) [] in_table ∙ ground arith)
    | no e ↦ get_or-set_ne t a x (set (row t a) b v) [] e ∙ ground arith
  ]

  written-HasRows : HasRows n m written
  written-HasRows = record {
    height = length-set t a _ ∙ rows.height;
    widths = λ x lx.
        ground (arith, row-written x, length-set (row t a) b v, rows.widths x lx, rows.widths a la);
  }

  cell-written : (x y : ℕ) → cell written x y ≡ (if x == a && y == b then v else cell t x y)
  cell-written x y = ground (
    arith,
    row-written x,
    get_or-set_self (row t a) b v false in_row,
    get_or-set_ne (row t a) b y v false,
  )

pub set_cell-Returns :
    {n m : ℕ} (t : Table) (a b : ℕ) (v : Bool)
    → HasRows n m t
    → a < m
    → m ≤ n
    → b < n
    → Returns (set_cell t (pos a) (pos b) v) (Written n m t a b v)
set_cell-Returns t a b v rows la le lb =
    rw (set_cell-eq t rows a b v la le lb)
      (written-HasRows t rows a b v la le lb, cell-written t rows a b v la le lb)

-- A loop over a row sets its cells to what `f` returns, and leaves the rows above.
module _ {n m : ℕ} (le : m ≤ n) (f : ℕ → ℕ → Outcome Bool) (g : ℕ → ℕ → Bool)
    (values : (i j : ℕ) → i < n → j < n → f i j ≡ ok (g i j)) where
  abbrev Row : ℕ → ℕ → Table → Type 0
  Row i j t =
      HasRows n m t
      × ((x y : ℕ) → x < i → y < n → cell t x y ≡ g x y)
      × ((y : ℕ) → y < j → cell t i y ≡ g i y)

  fill_cell :
      (i j : ℕ) (t : Table)
      → i < m
      → j < n
      → Row i j t
      → Returns (f i j >>= λ v. set_cell t (pos i) (pos j) v) (Row i (j + 1))
  fill_cell i j t li lj (rows, above, before) = rw (values i j (omega arith) lj) (
      Returns-map _ (Written n m t i j (g i j)) _ (set_cell-Returns t i j (g i j) rows li le lj)
        λ t' (kept, now). (
          kept,
          (λ x y lx ly. ground (arith, now x y, above x y)),
          (λ y ly. ground (arith, now i y, before y, ap (g i) {x = y} {y = j})),
        ))

  next_row :
      {i : ℕ} (t : Table)
      → ((x y : ℕ) → x < i → y < n → cell t x y ≡ g x y)
      → ((y : ℕ) → y < n → cell t i y ≡ g i y)
      → (x y : ℕ) → x < i + 1
      → y < n
      → cell t x y ≡ g x y
  next_row {i} t before now x y lx ly = elim (ℕ_discrete x i) [
    | yes e ↦ rw e (now y ly)
    | no e ↦ before x y (omega arith) ly
  ]

  -- The rows above `i` are done.
  abbrev pub Rows : ℕ → Table → Type 0
  Rows i t = HasRows n m t × ((x y : ℕ) → x < i → y < n → cell t x y ≡ g x y)

  pub fill_row-Returns :
      (i : ℕ) (t : Table)
      → i < m
      → Rows i t
      → Returns
          (for_range n 0 (λ j s. f i j >>= λ v. set_cell s (pos i) (pos j) v) t)
          (Rows (i + 1))
  fill_row-Returns i t li (rows, above) =
      Returns-map _ (Row i n) _
        (for_range-Returns (Row i) (λ j s. f i j >>= λ v. set_cell s (pos i) (pos j) v) n
          (λ j s lj p. fill_cell i j s li lj p) n 0 t (omega arith)
          (rows, above, λ y ly. absurd (omega arith)))
        λ t' (kept, before, now). (kept, λ x y lx ly. next_row t' before now x y lx ly)

-- A double loop over a square table sets every cell.
pub fill_cells-Returns :
    {n : ℕ} (f : ℕ → ℕ → Outcome Bool) (g : ℕ → ℕ → Bool)
    → ((i j : ℕ) → i < n → j < n → f i j ≡ ok (g i j))
    → (t : Table) → IsSquare n t
    → Returns (fill_cells n f t) (λ t'. IsSquare n t' × Cells n g t')
unfolding fill_cells
fill_cells-Returns {n} f g values t sq =
    for_range-Returns (Rows {n = n} {m = n} (omega arith) f g values)
      (λ i. for_range n 0 λ j s. f i j >>= λ v. set_cell s (pos i) (pos j) v) n
      (λ i s li p. fill_row-Returns (omega arith) f g values i s li p) n 0 t (omega arith)
      (sq, λ x y lx ly. absurd (omega arith))
