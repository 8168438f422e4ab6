-- ===== src/Diff/Tests.antt =====
-- Two small texts with one line in common.
use multi_agent_agent_hub.Prelude.{◌≡◌, ◌≤◌, refl, inl, inr, String, List, [], ◌∷◌, length}
use multi_agent_agent_hub.Prelude.Int.{pos}
use multi_agent_agent_hub.Prelude.Text.{trim_space}
use multi_agent_agent_hub.Diff.{
  same, removed, added, fill_row, fill_table, walk_line, walk, diff_ops, number_from, number_ops,
  change_indexes, spans_from, build_hunks, replace_crlf, trim_newline, split_newline, split_lines,
  unified_diff, patch,
}
use multi_agent_agent_hub.Diff.Sides.{side, on_both, on_old, on_new, diff_ops-sides}
use multi_agent_agent_hub.Diff.Patch.{apply_hunks}
use multi_agent_agent_hub.Diff.Hunks.{build_hunks-apply}
use multi_agent_agent_hub.Diff.Optimal.{IsSub, diff_ops-longest}

abbrev old_text : List String
old_text = "a" ∷ "b" ∷ "c" ∷ []

abbrev new_text : List String
new_text = "b" ∷ "d" ∷ "c" ∷ []

small_diff :
    unified_diff "a\r\nb\nc\n" "b\nd\nc" "x.go" (pos 0)
    ≡ patch "x.go" (
        (
          record { old_start = 1; old_count = 3; new_start = 1; new_count = 3 },
          record { kind = removed; text = "a"; old_pos = 1; new_pos = 1 }
              ∷ record { kind = same; text = "b"; old_pos = 2; new_pos = 1 }
              ∷ record { kind = added; text = "d"; old_pos = 3; new_pos = 2 }
              ∷ record { kind = same; text = "c"; old_pos = 3; new_pos = 3 }
              ∷ [],
        )
        ∷ [])
unfolding unified_diff split_lines replace_crlf trim_newline split_newline diff_ops fill_table
    fill_row walk walk_line number_ops number_from build_hunks change_indexes spans_from trim_space
small_diff = refl

diff_ops-sides_example :
    (side on_old (diff_ops old_text new_text) ≡ old_text)
    × (side on_new (diff_ops old_text new_text) ≡ new_text)
diff_ops-sides_example = diff_ops-sides old_text new_text

diff_ops-longest_example :
    IsSub (side on_both (diff_ops old_text new_text)) old_text
    × IsSub (side on_both (diff_ops old_text new_text)) new_text
    × (2 ≤ length (side on_both (diff_ops old_text new_text)))
diff_ops-longest_example =
    diff_ops-longest old_text new_text ("b" ∷ "c" ∷ []) (inr (inl (refl, inl (refl, tt))))
      (inl (refl, inr (inl (refl, tt))))

build_hunks-apply_example :
    apply_hunks 1 old_text (build_hunks (number_ops (diff_ops old_text new_text)) 1) ≡ new_text
build_hunks-apply_example = build_hunks-apply old_text new_text 1
