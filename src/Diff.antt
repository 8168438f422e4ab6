-- ===== src/Diff.antt =====
-- services/agents/diff-agent/diff.go: a line diff by the longest common subsequence, and its hunks.
-- The last step, which writes the hunks as one text, is left out: a patch keeps what it prints.
pub mod Sides
pub mod Optimal
pub mod Patch
pub mod Hunks
mod Tests
use Prim.Native.Char.{Char, code}
use Prim.Native.String.{String}
use multi_agent_agent_hub.Prelude.{
  ℕ, zero, suc, ◌+◌, ◌-◌, ◌*◌, Bool, true, false, not, List, [], ◌∷◌, ◌++◌, map, length, take, drop,
  replicate, str_eq, ltb, leb, ◌==◌, if◌then◌else◌, min, filter,
}
use multi_agent_agent_hub.Prelude.Int.{ℤ, pos, negsuc, leb_ℤ, ltb_ℤ, pos_part}
use multi_agent_agent_hub.Prelude.Text.{trim_space}

-- The bytes ' ', '-' and '+'.
pub data Kind : Type 0 where
  same removed added : Kind

pub record DiffOp : Type 0 where
  pub kind : Kind
  pub text : String
  pub old_pos : ℕ
  pub new_pos : ℕ

abbrev pub op : Kind → String → DiffOp
op kind text = record { kind = kind; text = text; old_pos = 0; new_pos = 0 }

abbrev max_diff_cells : ℕ
max_diff_cells = 4000000

-- A row or a table at an index; the loops stay inside.
abbrev pub at : List ℕ → ℕ → ℕ
at [] j = 0
at (d ∷ row) zero = d
at (d ∷ row) (suc j) = at row j

abbrev pub cell : List (List ℕ) → ℕ → ℕ → ℕ
cell [] i j = 0
cell (row ∷ rows) zero j = at row j
cell (row ∷ rows) (suc i) j = cell rows i j

-- The larger of the cells below and to the right, or one more than the cell across.
abbrev pub best : Bool → ℕ → ℕ → ℕ → ℕ
best true across below right = across + 1
best false across below right = if leb right below then below else right

-- A row of `dp` from the row below it, from its right end.
unfoldable pub fill_row : String → List String → List ℕ → List ℕ
fill_row x [] below = 0 ∷ []
fill_row x (y ∷ ys) [] = []
fill_row x (y ∷ ys) (d ∷ below) =
    let right = fill_row x ys below in best (str_eq x y) (at below 0) d (at right 0) ∷ right

abbrev pub top_row : List (List ℕ) → List ℕ
top_row [] = []
top_row (row ∷ rows) = row

-- The table `dp`, whose row `i` is about the old lines from `i` on.
unfoldable pub fill_table : List String → List String → List (List ℕ)
unfolding fill_row
fill_table [] ys = replicate (suc (length ys)) 0 ∷ []
fill_table (x ∷ xs) ys = let rows = fill_table xs ys in fill_row x ys (top_row rows) ∷ rows

module _ (dp : List (List ℕ)) where
  -- The rest of the walk at an old line; `next` is the walk from the line after it.
  unfoldable pub walk_line :
      String → ℕ → (ℕ → List String → List DiffOp) → ℕ → List String → List DiffOp
  walk_line x i next j [] = op removed x ∷ next j []
  walk_line x i next j (y ∷ ys) =
      let skip_new = walk_line x i next (suc j) ys in
      elim (str_eq x y) [
        | true ↦ op same x ∷ next (suc j) ys
        | false ↦ elim (leb (cell dp i (suc j)) (cell dp (suc i) j)) [
          | true ↦ op removed x ∷ next j (y ∷ ys)
          | false ↦ op added y ∷ skip_new
        ]
      ]

  -- The walk from the old line `i` and the new line `j`, which `xs` and `ys` start with.
  unfoldable pub walk : List String → ℕ → ℕ → List String → List DiffOp
  unfolding walk_line
  walk [] i j ys = map (op added) ys
  walk (x ∷ xs) i j ys = walk_line x i (walk xs (suc i)) j ys

unfoldable pub diff_ops : List String → List String → List DiffOp
unfolding walk fill_table
diff_ops old new = walk (fill_table old new) old 0 0 new

abbrev pub old_lines_of : Kind → ℕ
old_lines_of same = 1
old_lines_of removed = 1
old_lines_of added = 0

abbrev pub new_lines_of : Kind → ℕ
new_lines_of same = 1
new_lines_of removed = 0
new_lines_of added = 1

unfoldable pub number_from : ℕ → ℕ → List DiffOp → List DiffOp
number_from old_line new_line [] = []
number_from old_line new_line (o ∷ ops) =
    record o { old_pos = old_line; new_pos = new_line }
    ∷ number_from (old_line + old_lines_of o.kind) (new_line + new_lines_of o.kind) ops

unfoldable pub number_ops : List DiffOp → List DiffOp
unfolding number_from
number_ops ops = number_from 1 1 ops

abbrev pub is_change : Kind → Bool
is_change same = false
is_change removed = true
is_change added = true

unfoldable pub change_indexes : ℕ → List DiffOp → List ℕ
change_indexes i [] = []
change_indexes i (o ∷ ops) =
    let rest = change_indexes (suc i) ops in if is_change o.kind then i ∷ rest else rest

pub record Span : Type 0 where
  pub start : ℕ
  pub end : ℕ

abbrev pub span_at : ℕ → ℕ → ℕ → Span
span_at context last index = record { start = index - context; end = min last (index + context) }

-- The spans from the last one on, which the next changes may still extend.
unfoldable pub spans_from : ℕ → ℕ → Span → List ℕ → List Span
spans_from context last s [] = s ∷ []
spans_from context last s (index ∷ indexes) =
    let t = span_at context last index in
    let joined = spans_from context last (record { start = s.start; end = t.end }) indexes in
    let apart = spans_from context last t indexes in
    if leb t.start (s.end + 1) then joined else s ∷ apart

abbrev pub spans : ℕ → ℕ → List ℕ → List Span
spans context last [] = []
spans context last (index ∷ indexes) = spans_from context last (span_at context last index) indexes

-- ops[s.start : s.end+1].
abbrev pub slice : List DiffOp → Span → List DiffOp
slice ops s = take (s.end + 1 - s.start) (drop s.start ops)

unfoldable pub build_hunks : List DiffOp → ℕ → List (List DiffOp)
unfolding change_indexes spans_from
build_hunks ops context = map (slice ops) (spans context (length ops - 1) (change_indexes 0 ops))

abbrev pub count : (Kind → ℕ) → List DiffOp → ℕ
count f [] = 0
count f (o ∷ ops) = f o.kind + count f ops

-- The numbers of a hunk's line "@@ -old_start,old_count +new_start,new_count @@".
pub record HunkHeader : Type 0 where
  pub old_start : ℕ
  pub old_count : ℕ
  pub new_start : ℕ
  pub new_count : ℕ

abbrev pub header_of : List DiffOp → HunkHeader
header_of [] = record { old_start = 0; old_count = 0; new_start = 0; new_count = 0 }
header_of (o ∷ ops) = record {
  old_start = o.old_pos;
  old_count = count old_lines_of (o ∷ ops);
  new_start = o.new_pos;
  new_count = count new_lines_of (o ∷ ops);
}

-- "\r\n" becomes "\n".
unfoldable pub replace_crlf : String → String
replace_crlf String.[] = String.[]
replace_crlf (String.◌∷◌ c String.[]) = String.◌∷◌ c String.[]
replace_crlf (String.◌∷◌ c (String.◌∷◌ d s)) =
    let rest = replace_crlf (String.◌∷◌ d s) in
    if (if code c == 0xd then code d == 0xa else false) then rest else String.◌∷◌ c rest

unfoldable pub trim_newline : String → String
trim_newline String.[] = String.[]
trim_newline (String.◌∷◌ c String.[]) = if code c == 0xa then String.[] else String.◌∷◌ c String.[]
trim_newline (String.◌∷◌ c (String.◌∷◌ d s)) = String.◌∷◌ c (trim_newline (String.◌∷◌ d s))

abbrev pub cons_first : Char → List String → List String
cons_first c [] = String.◌∷◌ c String.[] ∷ []
cons_first c (line ∷ lines) = String.◌∷◌ c line ∷ lines

-- strings.Split(s, "\n").
unfoldable pub split_newline : String → List String
split_newline String.[] = "" ∷ []
split_newline (String.◌∷◌ c s) =
    let rest = split_newline s in if code c == 0xa then "" ∷ rest else cons_first c rest

unfoldable pub split_lines : String → List String
unfolding replace_crlf trim_newline split_newline
split_lines text =
    let normalized = trim_newline (replace_crlf text) in
    if str_eq normalized "" then [] else split_newline normalized

pub data Result : Type 0 where
  too_large no_change : Result
  patch : String → List (HunkHeader × List DiffOp) → Result

abbrev clamped_context : ℤ → ℕ
clamped_context n = if leb_ℤ n (pos 0) then 3 else min 10 (pos_part n)

abbrev printed : String → List (List DiffOp) → Result
printed path [] = no_change
printed path (hunk ∷ hunks) =
    patch (if str_eq (trim_space path) "" then "file" else path)
      (map (λ h. (header_of h, h)) (hunk ∷ hunks))

-- The product of the lengths of two texts in memory is below 2 ^ 63.
unfoldable pub unified_diff : String → String → String → ℤ → Result
unfolding split_lines diff_ops number_ops build_hunks
unified_diff original modified path context_lines =
    let old = split_lines original in
    let new = split_lines modified in
    let hunks = build_hunks (number_ops (diff_ops old new)) (clamped_context context_lines) in
    if ltb max_diff_cells (length old * length new) then too_large else printed path hunks
