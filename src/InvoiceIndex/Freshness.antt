-- ===== src/InvoiceIndex/Freshness.antt =====
-- ensureIndexFresh and getInvoiceIndexHealth: whether the index proves that an order has no invoice.
use store_kiotviet.Base.{
  ℕ, ◌-◌, ◌≤◌, ◌<◌, ◌≡◌, refl, ◌∙◌, arith, Bool, true, false, ◌&&◌, Option, none, some, List,
  if◌then◌else◌, leb, ltb, All, All-imp, has_id,
}
use store_kiotviet.InvoiceIndex.{InvoiceIndexState, Index}
use store_kiotviet.InvoiceIndex.Advance.{
  Turn, InvoiceIndexProgress, advance_invoice_index, advance_invoice_index-IsConfirmed,
}
use store_kiotviet.InvoiceIndex.Runs.{World, initial, IndexReach}
use store_kiotviet.InvoiceIndex.Runs.Complete.{current_misses_nothing}

abbrev is_from : ℕ → Option ℕ → Bool
is_from start none = false
is_from start (some t) = leb start t

-- Only a confirmation that started at or after the lookup counts.
unfoldable pub judge : (lookup_start : ℕ) → InvoiceIndexProgress → Bool
judge lookup_start p = p.current && is_from lookup_start p.current_as_of

abbrev has_all : InvoiceIndexState → Bool
has_all s = elim s.remote_total [ none ↦ false | some total ↦ leb total s.scanned_count ]

unfoldable pub is_reusable : (lookup_start : ℕ) → InvoiceIndexState → Bool
is_reusable lookup_start s = is_from lookup_start s.current_as_of && has_all s

pub data IndexFreshness : Type 0 where
  reused joined queued fetched : IndexFreshness

-- Which confirmation a lookup waits for: `running` is the start of the refresh in this process.
unfoldable pub choose_refresh :
    (lookup_start : ℕ) → InvoiceIndexState → (running : Option ℕ) → IndexFreshness
unfolding is_reusable
choose_refresh lookup_start s running =
    if is_reusable lookup_start s then reused else elim running [
      | none ↦ fetched
      | some started_at ↦ if leb lookup_start started_at then joined else queued
    ]

abbrev pub invoice_index_lookup_catch_up : ℕ
invoice_index_lookup_catch_up = 500

abbrev pub invoice_index_stale_ms : ℕ
invoice_index_stale_ms = 900000

pub record InvoiceIndexHealth : Type 0 where
  pub scanned : ℕ
  pub total : Option ℕ
  pub lag : Option ℕ
  pub current_as_of : Option ℕ
  pub usable : Bool
  pub stale : Bool
  pub generation : ℕ

abbrev lag_of : InvoiceIndexState → Option ℕ
lag_of s = elim s.remote_total [ none ↦ none | some total ↦ some (total - s.scanned_count) ]

abbrev is_usable : Option ℕ → Bool
is_usable none = false
is_usable (some lag) = leb lag invoice_index_lookup_catch_up

abbrev is_stale : ℕ → Option ℕ → Bool
is_stale now none = true
is_stale now (some t) = ltb invoice_index_stale_ms (now - t)

unfoldable pub get_invoice_index_health : (now : ℕ) → InvoiceIndexState → InvoiceIndexHealth
get_invoice_index_health now s = record {
  scanned = s.scanned_count;
  total = s.remote_total;
  lag = lag_of s;
  current_as_of = s.current_as_of;
  usable = is_usable (lag_of s);
  stale = is_stale now s.current_as_of;
  generation = s.generation;
}

-- What a lookup may conclude from a checkpoint that is current as of its start or later.
from_start :
    {w : World} (start : ℕ) (as_of : Option ℕ)
    → IndexReach initial w
    → w.index.state.current_as_of ≡ as_of
    → is_from start as_of ≡ true
    → All (λ i. i.created_at < start → has_id i.id w.index.rows ≡ true) w.remote
from_start start none r e h = cc
from_start {w} start (some t) r e h =
    let le : start ≤ t = ground arith in
    All-imp (λ i f lt. f (omega (arith, lt, le))) w.remote (current_misses_nothing t r e)

-- When a lookup may reuse the state of a reachable world, the index holds every invoice that
-- KiotViet has and made before the lookup began.
pub reused_misses_nothing :
    {w : World} (lookup_start : ℕ)
    → IndexReach initial w
    → is_reusable lookup_start w.index.state ≡ true
    → All (λ i. i.created_at < lookup_start → has_id i.id w.index.rows ≡ true) w.remote
unfolding is_reusable
reused_misses_nothing {w} start r h =
    from_start start w.index.state.current_as_of r refl (ground arith)

-- When the turns of a runner end in a reachable world and the result is judged current for a
-- lookup, the index holds every invoice that KiotViet has and made before the lookup began.
pub fetched_misses_nothing :
    {w : World} (lookup_start : ℕ) (turns : List Turn) (before : Index)
    → IndexReach initial w
    → w.index ≡ (advance_invoice_index turns before).1
    → judge lookup_start (advance_invoice_index turns before).0 ≡ true
    → All (λ i. i.created_at < lookup_start → has_id i.id w.index.rows ≡ true) w.remote
unfolding judge
fetched_misses_nothing {w} start turns before r e h =
    let run = advance_invoice_index turns before in
    let sure = advance_invoice_index-IsConfirmed turns before (ground arith) in
    from_start start run.0.current_as_of r (rw e refl ∙ sure.as_of) (ground arith)
