-- ===== src/Match/Matcher/Tests.antt =====
-- The theorems on the matcher at concrete inputs.
use coldwatch.Base.{ℕ, ◌≡◌, refl, true, false, List, ◌++◌, map, if◌then◌else◌}
use coldwatch.Base.Bytes.{to_le}
use coldwatch.Base.Dict.{get, put}
use coldwatch.Base.Results.{ok}
use coldwatch.Match.Keys.{spk_hmac, tagged, tagged_message}
use coldwatch.Match.Index.Items.{has_item, IsDistinct}
use coldwatch.Match.Index.Memory.{
  InMemoryWatchIndex, in_memory, watch_all, items_at, items_watching_spk, memory_index,
}
use coldwatch.Match.Provisional
use coldwatch.Match.Matcher.{outgoing, incoming, match, apply}
use coldwatch.Match.Matcher.Reports.{spends_from, pays_to, match_reports}
use coldwatch.Match.Matcher.Record.{Rewrites, spends, creates, apply-Rewrites}
use coldwatch.Match.Matcher.Alarm.{here, confirmed, deposit_arms}
use coldwatch.Match.Matcher.Samples.{
  toy_hmac, toy_key, laws, watcher, watcher-IsSound, deposit, spender, bystander, deposited,
  deposit-IsMatchable, spender-IsMatchable, bystander-IsMatchable,
}

match_reports_example :
    (out into : List ℕ) × (match memory_index toy_hmac toy_key deposit watcher
      ≡ ok (
          map (λ i. record { item_id = i; direction = outgoing }) out
          ++ map (λ i. record { item_id = i; direction = incoming }) into))
    × (IsDistinct out × IsDistinct into)
    × ((i : ℕ)
        → has_item i out ≡ spends_from toy_hmac toy_key memory_index i deposit.inputs watcher)
    × ((i : ℕ) → has_item i into ≡ pays_to toy_hmac toy_key memory_index i deposit.outputs watcher)
match_reports_example =
    match_reports toy_hmac toy_key memory_index deposit watcher deposit-IsMatchable

apply-Rewrites_example :
    (t : InMemoryWatchIndex) × (apply memory_index toy_hmac toy_key deposit watcher ≡ (
      ok tt,
      record { index = t; provisional = Provisional.forget deposit.txid watcher.provisional },
    ))
    × Rewrites laws watcher.index t (λ i h.
      if creates toy_hmac toy_key memory_index i deposit.txid deposit.outputs h watcher.index
      then true
      else if spends toy_hmac toy_key deposit.inputs h
      then false
      else has_item i (memory_index.items_owning_outpoint h watcher.index))
apply-Rewrites_example =
    apply-Rewrites laws toy_hmac toy_key deposit watcher deposit-IsMatchable watcher-IsSound

pays :
    creates toy_hmac toy_key memory_index 7 deposit.txid deposit.outputs deposited watcher.index
    ≡ true
unfolding creates in_memory watch_all items_watching_spk items_at get put has_item spk_hmac tagged
    tagged_message to_le
pays = refl

not_spent : spends toy_hmac toy_key bystander.inputs deposited ≡ false
unfolding spends tagged tagged_message to_le
not_spent = refl

spent : spends toy_hmac toy_key spender.inputs deposited ≡ true
unfolding spends tagged tagged_message to_le
spent = refl

deposit_arms_example :
    (out into : List ℕ) × (match memory_index toy_hmac toy_key spender
        (apply memory_index toy_hmac toy_key bystander
          (apply memory_index toy_hmac toy_key deposit watcher).1).1
      ≡ ok (
          map (λ j. record { item_id = j; direction = outgoing }) out
          ++ map (λ j. record { item_id = j; direction = incoming }) into))
    × (has_item 7 out ≡ true)
deposit_arms_example =
    deposit_arms laws toy_hmac toy_key 7 deposited deposit spender watcher watcher-IsSound
      deposit-IsMatchable pays (confirmed here bystander bystander-IsMatchable not_spent)
      spender-IsMatchable spent
