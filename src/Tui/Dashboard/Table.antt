-- ===== src/Tui/Dashboard/Table.antt =====
-- columnsFor, renderTable and renderPanel of dashboard.go: the columns for a width of the terminal, and
-- the text of a table.
pub mod Lines
use ebpf_packet_router.Prelude.{
  ℕ, zero, suc, List, [], ◌∷◌, ◌++◌, Option, none, some, ◌==◌, leb, length, replicate, map, ℤ,
  negsuc, is_index, if◌then◌else◌,
}
use ebpf_packet_router.Std.Text.{Bytes, codes}
use ebpf_packet_router.Std.Pad.{pad_right}
use ebpf_packet_router.Cmd.Listing.{Line}

abbrev pub full_width_threshold : ℕ
full_width_threshold = 78

abbrev pub medium_width_threshold : ℕ
medium_width_threshold = 60

-- the headers and the widths, none if the terminal is too narrow
unfoldable pub columns_for : ℕ → Bytes → ℕ → Option (Line × List ℕ)
columns_for width key_label key_width =
    if leb full_width_threshold width
    then some (
      key_label
          ∷ codes "ACTION"
          ∷ codes "IFINDEX"
          ∷ codes "PACKETS"
          ∷ codes "BYTES"
          ∷ codes "PPS"
          ∷ [],
      key_width ∷ 10 ∷ 5 ∷ 8 ∷ 10 ∷ 7 ∷ [],
    )
    else if leb medium_width_threshold width
    then some (
      key_label ∷ codes "ACTION" ∷ codes "IFINDEX" ∷ codes "PACKETS" ∷ codes "PPS" ∷ [],
      key_width ∷ 10 ∷ 5 ∷ 8 ∷ 7 ∷ [],
    )
    else none

-- a row without its cell at the index
unfoldable pub without_cell : ℕ → Line → Line
without_cell idx [] = []
without_cell zero (c ∷ r) = r
without_cell (suc idx) (c ∷ r) = c ∷ without_cell idx r

unfoldable pub drop_column : List Line → ℕ → List Line
unfolding without_cell
drop_column rows idx = map (without_cell idx) rows

-- a cell that is not there is empty
unfoldable pub write_cells : List ℕ → Line → Bytes
write_cells [] cells = []
write_cells (w ∷ ws) [] = pad_right w [] ++ (codes "  " ++ write_cells ws [])
write_cells (w ∷ ws) (c ∷ cells) = pad_right w c ++ (codes "  " ++ write_cells ws cells)

unfoldable pub write_row : List ℕ → Bytes → Line → Bytes
unfolding write_cells
write_row widths marker cells = marker ++ (write_cells widths cells ++ 10 ∷ [])

abbrev pub dashes : ℕ → Bytes
dashes w = replicate w b'-'

abbrev pub marker_of : ℤ → ℕ → Bytes
marker_of selected i = if is_index selected i then codes "> " else codes "  "

-- the rows from the i-th one on
unfoldable pub write_rows : List ℕ → ℤ → ℕ → List Line → Bytes
unfolding write_row
write_rows widths selected i [] = []
write_rows widths selected i (r ∷ rows) =
    write_row widths (marker_of selected i) r ++ write_rows widths selected (suc i) rows

abbrev if_empty : List Line → Bytes
if_empty [] = codes "  (empty)" ++ 10 ∷ []
if_empty (r ∷ rows) = []

unfoldable pub render_table : Line → List ℕ → List Line → ℤ → Bytes
unfolding write_rows write_row
render_table headers widths rows selected =
    write_row widths (codes "  ") headers
    ++ write_row widths (codes "  ") (map dashes widths)
    ++ if_empty rows
    ++ write_rows widths selected 0 rows

abbrev panel_of : Option (Line × List ℕ) → List Line → ℤ → Bytes
panel_of none rows selected =
    codes "(terminal too narrow for table view - resize to at least 60 columns)"
panel_of (some (headers, widths)) rows selected =
    render_table headers widths (if length headers == 5 then drop_column rows 4 else rows) selected

-- `renderPanel` at a width of the terminal
unfoldable pub render_panel : ℕ → Bytes → ℕ → List Line → ℤ → Bytes
unfolding columns_for drop_column render_table
render_panel width key_label key_width rows selected =
    panel_of (columns_for width key_label key_width) rows selected

abbrev policy_titles : Line
policy_titles =
    codes "SUBSCRIBER" ∷ codes "CAP" ∷ codes "DROPPED" ∷ codes "QUAR" ∷ codes "STATE" ∷ []

-- the enforcement panel, of its rows
unfoldable pub render_policies : List Line → Bytes
render_policies [] = codes "  (no rate-limit or quarantine policy set)"
render_policies (r ∷ rows) =
    render_table policy_titles (15 ∷ 8 ∷ 8 ∷ 10 ∷ 6 ∷ []) (r ∷ rows) (negsuc 0)
