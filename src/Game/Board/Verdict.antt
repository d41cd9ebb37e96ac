-- ===== src/Game/Board/Verdict.antt =====
-- What `check_game_status` decides, against the rules of the game.
use agh_sys_opy.Prelude.{
  ℕ, zero, suc, ◌+◌, ◌*◌, ◌<◌, ◌≡◌, refl, ◌⊎◌, inl, inr, ◌≢◌, List, [], ◌∷◌, Option, none, some,
  arith, ◌==◌, find_index, find_index-some, find_index-none, ap, Bool-cases,
}
use agh_sys_opy.Game.Board.{Cells, board_size, blank, draw, opts, line_winner, check_game_status}

-- The symbol `c` fills a row, a column or a diagonal.
abbrev pub HasLine : ℕ → Cells → Type 0
HasLine c b =
    ((r : ℕ) × (r < 3) × ((k : ℕ) → k < 3 → b (3 * r + k) ≡ c))
    ⊎ ((k : ℕ) × (k < 3) × ((r : ℕ) → r < 3 → b (3 * r + k) ≡ c))
    ⊎ ((k : ℕ) → k < 3 → b (4 * k) ≡ c)
    ⊎ ((k : ℕ) → k < 3 → b (2 * k + 2) ≡ c)

-- No symbol fills a line.
abbrev pub NoLine : Cells → Type 0
NoLine b = (c : ℕ) → c ≢ blank → ¬ HasLine c b

-- The rules: somebody has a line; or nobody has and the game goes on; or nobody has and it is over.
abbrev pub IsVerdict : Cells → ℕ → Type 0
IsVerdict b v =
    ((v ≢ 0) × (v ≢ blank) × HasLine v b)
    ⊎ ((v ≡ 0) × NoLine b × ((i : ℕ) × (i < board_size) × (b i ≡ blank)))
    ⊎ ((v ≡ draw) × NoLine b × ((i : ℕ) → i < board_size → b i ≢ blank))

-- A line of the table, filled by `c`.
abbrev OnLine : ℕ → Cells → List (ℕ × ℕ × ℕ) → Type 0
OnLine c b [] = ⊥
OnLine c b ((i, j, k) ∷ rest) = ((b i ≡ c) × (b j ≡ c) × (b k ≡ c)) ⊎ OnLine c b rest

three : (P : ℕ → Type 0) → P 0 → P 1 → P 2 → (k : ℕ) → k < 3 → P k
three P p q r zero h = p
three P p q r (suc zero) h = q
three P p q r (suc (suc zero)) h = r
three P p q r (suc (suc (suc k))) h = absurd (omega arith)

HasLine-of_OnLine : (c : ℕ) (b : Cells) → OnLine c b opts → HasLine c b
HasLine-of_OnLine c b (inl (x, y, z)) = inl (0, omega arith, three _ x y z)
HasLine-of_OnLine c b (inr (inl (x, y, z))) = inl (1, omega arith, three _ x y z)
HasLine-of_OnLine c b (inr (inr (inl (x, y, z)))) = inl (2, omega arith, three _ x y z)
HasLine-of_OnLine c b (inr (inr (inr (inl (x, y, z))))) = inr (inl (0, omega arith, three _ x y z))
HasLine-of_OnLine c b (inr (inr (inr (inr (inl (x, y, z)))))) =
    inr (inl (1, omega arith, three _ x y z))
HasLine-of_OnLine c b (inr (inr (inr (inr (inr (inl (x, y, z))))))) =
    inr (inl (2, omega arith, three _ x y z))
HasLine-of_OnLine c b (inr (inr (inr (inr (inr (inr (inl (x, y, z)))))))) =
    inr (inr (inl (three _ x y z)))
HasLine-of_OnLine c b (inr (inr (inr (inr (inr (inr (inr (inl (x, y, z))))))))) =
    inr (inr (inr (three _ x y z)))
HasLine-of_OnLine c b (inr (inr (inr (inr (inr (inr (inr (inr h)))))))) = absurd h

row_OnLine :
    (c : ℕ) (b : Cells) (r : ℕ)
    → r < 3
    → (b (3 * r) ≡ c) × (b (3 * r + 1) ≡ c) × (b (3 * r + 2) ≡ c)
    → OnLine c b opts
row_OnLine c b zero h t = inl t
row_OnLine c b (suc zero) h t = inr (inl t)
row_OnLine c b (suc (suc zero)) h t = inr (inr (inl t))
row_OnLine c b (suc (suc (suc r))) h t = absurd (omega arith)

column_OnLine :
    (c : ℕ) (b : Cells) (k : ℕ)
    → k < 3
    → (b k ≡ c) × (b (3 + k) ≡ c) × (b (6 + k) ≡ c)
    → OnLine c b opts
column_OnLine c b zero h t = inr (inr (inr (inl t)))
column_OnLine c b (suc zero) h t = inr (inr (inr (inr (inl t))))
column_OnLine c b (suc (suc zero)) h t = inr (inr (inr (inr (inr (inl t)))))
column_OnLine c b (suc (suc (suc k))) h t = absurd (omega arith)

at : (b : Cells) {c : ℕ} (i j : ℕ) → b i ≡ c → i ≡ j → b j ≡ c
at b i j h e = ground (arith, ap b e)

OnLine-of_HasLine : (c : ℕ) (b : Cells) → HasLine c b → OnLine c b opts
OnLine-of_HasLine c b (inl (r, h, f)) =
    row_OnLine c b r h
      (at b _ _ (f 0 (omega arith)) (omega arith), f 1 (omega arith), f 2 (omega arith))
OnLine-of_HasLine c b (inr (inl (k, h, f))) = column_OnLine c b k h (
  at b _ _ (f 0 (omega arith)) (omega arith),
  at b _ _ (f 1 (omega arith)) (omega arith),
  at b _ _ (f 2 (omega arith)) (omega arith),
)
OnLine-of_HasLine c b (inr (inr (inl f))) =
    inr
      (inr (inr (inr (inr (inr (inl (f 0 (omega arith), f 1 (omega arith), f 2 (omega arith))))))))
OnLine-of_HasLine c b (inr (inr (inr f))) = inr (
    inr
      (inr (inr (inr (inr (inr (inl (f 0 (omega arith), f 1 (omega arith), f 2 (omega arith)))))))))

line_winner-OnLine :
    (b : Cells) (lines : List (ℕ × ℕ × ℕ))
    → line_winner lines b ≢ 0
    → (line_winner lines b ≢ blank) × OnLine (line_winner lines b) b lines
unfolding line_winner
line_winner-OnLine b [] h = absurd (h refl)
line_winner-OnLine b ((i, j, k) ∷ rest) h = ground (arith, line_winner-OnLine b rest)

line_winner_none :
    (b : Cells) (lines : List (ℕ × ℕ × ℕ)) (c : ℕ)
    → line_winner lines b ≡ 0
    → c ≢ 0
    → c ≢ blank
    → ¬ OnLine c b lines
unfolding line_winner
line_winner_none b [] c e nz nb h = h
line_winner_none b ((i, j, k) ∷ rest) c e nz nb h = ground (arith, line_winner_none b rest c)

HasLine-ne-zero : (c : ℕ) (b : Cells) → ((i : ℕ) → i < board_size → b i ≢ 0) → HasLine c b → c ≢ 0
HasLine-ne-zero c b nonzero (inl (r, h, f)) =
    ground (arith, f 0 (omega arith), nonzero (3 * r + 0) (omega arith))
HasLine-ne-zero c b nonzero (inr (inl (k, h, f))) =
    ground (arith, f 0 (omega arith), nonzero (3 * 0 + k) (omega arith))
HasLine-ne-zero c b nonzero (inr (inr (inl f))) =
    ground (arith, f 0 (omega arith), nonzero 0 (omega arith))
HasLine-ne-zero c b nonzero (inr (inr (inr f))) =
    ground (arith, f 0 (omega arith), nonzero 2 (omega arith))

no_winner-NoLine :
    (b : Cells) → ((i : ℕ) → i < board_size → b i ≢ 0) → line_winner opts b ≡ 0 → NoLine b
no_winner-NoLine b nonzero e c nb h =
    line_winner_none b opts c e (HasLine-ne-zero c b nonzero h) nb (OnLine-of_HasLine c b h)

-- The second loop, after a first loop that found no winner.
no_winner-IsVerdict :
    (b : Cells) (r : Option ℕ)
    → NoLine b
    → find_index board_size (λ i. b i == blank) ≡ r
    → IsVerdict b (elim r [ some i ↦ 0 | none ↦ draw ])
no_winner-IsVerdict b (some i) nl e =
    let (lt, hit, _) = find_index-some board_size i (λ i. b i == blank) e in
    inr (inl (refl, nl, (i, lt, ground arith)))
no_winner-IsVerdict b none nl e = inr (
    inr (refl, nl, λ i lt h. ground (arith, find_index-none board_size i (λ i. b i == blank) e lt)))

-- On a board with no zero byte, `check_game_status` returns the verdict of the rules: a symbol
-- other than the blank that fills a row, column or diagonal; 0 if no symbol fills one and a cell is
-- blank; 'd' if no symbol fills one and no cell is blank.
pub check_game_status-IsVerdict :
    (b : Cells) → ((i : ℕ) → i < board_size → b i ≢ 0) → IsVerdict b (check_game_status b)
unfolding check_game_status
check_game_status-IsVerdict b nonzero = elim (Bool-cases (line_winner opts b == 0)) [
  | inl e ↦ rw e (no_winner-IsVerdict b _ (no_winner-NoLine b nonzero (ground arith)) refl)
  | inr e ↦ rw e (winner (ground arith) (line_winner-OnLine b opts (ground arith)))
]
  where
    winner :
        line_winner opts b ≢ 0
        → (line_winner opts b ≢ blank) × OnLine (line_winner opts b) b opts
        → IsVerdict b (line_winner opts b)
    winner nz (nb, on) = inl (nz, nb, HasLine-of_OnLine _ b on)
