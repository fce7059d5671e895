-- ===== src/Trim/Listed.antt =====
-- The end of a trim of a list, which needs no law to be assumed.
use peerbit.Base.{ℕ, ◌≡◌, Option, some, List}
use peerbit.EntryIndex.{EntryCache}
use peerbit.Trim.Ended.{trim_task-returns}
use peerbit.Trim.Sorted.{reporting_log}
use peerbit.Trim.{Trim, trim_task}
use peerbit.TrimOptions.{Node, TrimOptions}

module _ (dec : Discrete (List ℕ)) (marks : EntryCache (List ℕ)) where
  -- `trimTask` of a log that is a list of nodes and is asked by the queries of `LastWriteWins`, the sort
  -- function that a log has by default, returns: whatever the options and the state are, in any order of
  -- the list, with equal times or hashes in it, and whatever number the log reports as its length. The
  -- loop, which runs on fuel in the model, is not out of it.
  pub trim_task-list_returns :
      (reported : List (Node (List ℕ)) → ℕ) (now : ℕ) (options : Option (TrimOptions (List ℕ)))
      (t : Trim dec (reporting_log dec reported) marks)
      → (t' : Trim dec (reporting_log dec reported) marks) × (gone : List (Node (List ℕ)))
        × (trim_task dec (reporting_log dec reported) marks now options t ≡ some (t', gone))
  trim_task-list_returns reported now options t =
      let ((t', gone), e) =
        trim_task-returns dec (reporting_log dec reported) marks now options t in
      (t', gone, e)
