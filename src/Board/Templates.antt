-- ===== src/Board/Templates.antt =====
-- The texts of src/board/templates.py.
use Prim.Native.String.{String, ◌++◌}
use mathlib.Core.List.{List, [], ◌∷◌}

abbrev pub close_off_epic_title : String
close_off_epic_title = "Operations"

abbrev pub close_off_feature_title : String
close_off_feature_title = "Worktree Close-off"

abbrev join : List String → String
join [] = ""
join (s ∷ ss) = s ++ join ss

close_off_steps : List String
close_off_steps =
    ".\n" ∷ "\n" ∷ "1. Verify all assigned tasks are done (or in review with pr_merged=true) on "
    ∷ "the board. The agent_unregistered event in the main inbox carries "
    ∷ "`tasks_completed` and a `prs` map (T-NNN -> PR URL) — use it to attribute "
    ∷ "merges per task without shelling out to `gh pr list`.\n"
    ∷ "2. Read shutdown-artifacts/{work-log,learnings}.md from the worktree.\n"
    ∷ "3. Archive both to docs/work-logs/YYYY-MM-DD-<wave>-{work-log,learnings}.md.\n"
    ∷ "4. Route learnings into their permanent homes: repo-level gotchas into "
    ∷ "docs/invariants.md or CLAUDE.md; plugin-level gotchas into the relevant "
    ∷ "SKILL.md. Do NOT file as backlog tasks — learnings go directly into files and "
    ∷ "travel with the wave-fold commit.\n"
    ∷ "5. Run make sync-mcp-dist to propagate MCP schema changes.\n"
    ∷ "6. Run on-worktree-destroy.sh, git worktree remove, branch -D, drop the " ∷ "worktree DB.\n"
    ∷ "7. Commit the work-log and any routed learnings directly to main using "
    ∷ "ALLOW_MAIN_COMMIT=1 git commit, then push with the bot token: git push "
    ∷ "<bot-url> main:main. See close-wave SKILL.md Step 13 for the exact commands.\n"
    ∷ "8. After the push succeeds, call update_task_status(status='done') for this "
    ∷ "task and all other close-off tasks in the wave. No PR is opened; no user drag "
    ∷ "to done is needed." ∷ []

unfoldable pub close_worktree_title : String → String
close_worktree_title worktree_name = "Close worktree " ++ worktree_name

unfoldable pub close_worktree_description : String → String
unfolding close_off_steps
close_worktree_description worktree_name =
    "Close-off for worktree " ++ worktree_name ++ join close_off_steps
