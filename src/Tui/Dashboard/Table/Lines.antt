-- ===== src/Tui/Dashboard/Table/Lines.antt =====
-- How long the lines of a table are.
use mathlib.Core.Path.{subst}
use ebpf_packet_router.Prelude.{
  ℕ, ◌+◌, ◌≤◌, ◌≡◌, ◌∙◌, refl, List, [], ◌∷◌, ◌++◌, Option, none, some, arith, length,
  length-append, leb, Bool-cases, inl, inr, if◌then◌else◌,
}
use ebpf_packet_router.Std.Text.{Bytes, codes}
use ebpf_packet_router.Std.Pad.{pad_right, length-pad_right, length-pad_right_over}
use ebpf_packet_router.Cmd.Listing.{Line}
use ebpf_packet_router.Tui.Dashboard.Table.{
  columns_for, full_width_threshold, medium_width_threshold, write_cells, write_row,
}

-- the bytes of a cell in its column
abbrev cell_width : ℕ → Bytes → ℕ
cell_width w c = if leb (length c) w then w else length c

-- the bytes of a line behind its marker, with the two blanks behind each cell
abbrev line_width : List ℕ → Line → ℕ
line_width [] cells = 0
line_width (w ∷ ws) [] = w + 2 + line_width ws []
line_width (w ∷ ws) (c ∷ cells) = cell_width w c + 2 + line_width ws cells

length-pad_right_cell : (w : ℕ) (c : Bytes) → length (pad_right w c) ≡ cell_width w c
length-pad_right_cell w c = elim (Bool-cases (leb (length c) w)) [
  | inl e ↦ rw e (length-pad_right w c (ground arith))
  | inr e ↦ rw e (length-pad_right_over w c (ground arith))
]

length-write_cells :
    (ws : List ℕ) (cells : Line) → length (write_cells ws cells) ≡ line_width ws cells
unfolding write_cells
length-write_cells [] cells = refl
length-write_cells (w ∷ ws) [] =
    length-append (pad_right w []) (codes "  " ++ write_cells ws [])
    ∙ omega (arith, length-pad_right w [] (omega arith), length-write_cells ws [])
length-write_cells (w ∷ ws) (c ∷ cells) = omega (
  arith,
  length-append (pad_right w c) (codes "  " ++ write_cells ws cells),
  length-pad_right_cell w c,
  length-write_cells ws cells,
)

length-write_row :
    (ws : List ℕ) (marker : Bytes) (cells : Line)
    → length (write_row ws marker cells) ≡ length marker + line_width ws cells + 1
unfolding write_row
length-write_row ws marker cells =
    length-append marker (write_cells ws cells ++ 10 ∷ [])
    ∙ omega (arith, length-append (write_cells ws cells) (10 ∷ []), length-write_cells ws cells)

-- every cell that is there is within its column
abbrev pub Fits : List ℕ → Line → Type 0
Fits [] cells = Unit
Fits (w ∷ ws) [] = Unit
Fits (w ∷ ws) (c ∷ cells) = (length c ≤ w) × Fits ws cells

-- the width of the columns
abbrev total_width : List ℕ → ℕ
total_width [] = 0
total_width (w ∷ ws) = w + 2 + total_width ws

line_width_empty : (ws : List ℕ) → line_width ws [] ≡ total_width ws
line_width_empty [] = refl
line_width_empty (w ∷ ws) = omega (arith, line_width_empty ws)

line_width-Fits :
    (ws : List ℕ) (cells : Line) → Fits ws cells → line_width ws cells ≡ total_width ws
line_width-Fits [] cells h = refl
line_width-Fits (w ∷ ws) [] h = omega (arith, line_width_empty ws)
line_width-Fits (w ∷ ws) (c ∷ cells) (h, hs) =
    let here : cell_width w c ≡ w = ground arith in omega (arith, line_width-Fits ws cells hs)

-- the line of the headers is two bytes longer than the columns are wide
abbrev IsWide : Option (Line × List ℕ) → Type 0
IsWide none = Unit
IsWide (some (headers, widths)) = line_width widths headers ≡ total_width widths + 2

columns_for-IsWide :
    (width kw : ℕ) (label : Bytes) → length label ≤ kw → IsWide (columns_for width label kw)
unfolding columns_for
columns_for-IsWide width kw label fits =
    let here : cell_width kw label ≡ kw = ground arith in
    elim (Bool-cases (leb full_width_threshold width)) [
      | inl e ↦ rw e (omega arith)
      | inr e ↦ elim (Bool-cases (leb medium_width_threshold width)) [
        | inl e' ↦ rw (e, e') (omega arith)
        | inr e' ↦ rw (e, e') tt
      ]
    ]

module _ (width kw : ℕ) (label : Bytes) {headers : Line} {widths : List ℕ}
    (columns : columns_for width label kw ≡ some (headers, widths))
    (label_fits : length label ≤ kw) where
  -- At every width at which a rule panel has columns, with a label of the key that fits its column,
  -- the line of the headers is two bytes longer than the line of any row with a marker of two bytes
  -- whose cells fit their columns.
  pub columns_for-misaligned :
      (marker : Bytes) (cells : Line)
      → length marker ≡ 2
      → Fits widths cells
      → length (write_row widths (codes "  ") headers) ≡ length (write_row widths marker cells) + 2
  columns_for-misaligned marker cells two fits =
      let wide : line_width widths headers ≡ total_width widths + 2 =
        subst IsWide columns (columns_for-IsWide width kw label label_fits) in
      omega (
        arith,
        length-write_row widths (codes "  ") headers,
        length-write_row widths marker cells,
        line_width-Fits widths cells fits,
        wide,
      )
