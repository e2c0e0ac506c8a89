-- ===== src/PagedKv/Switch.antt =====
-- `set_prefix_caching` on the whole manager.
use ru_llm.Base.{◌≡◌, refl, Bool, Returns}
use ru_llm.PagedKv.Types.{Manager}
use ru_llm.PagedKv.Pool.{set_prefix_caching, available_pages}
use ru_llm.PagedKv.Pool.Flush.{PoolSwitched, set_prefix_caching_lem}
use ru_llm.PagedKv.Manager.{on_pool}
use ru_llm.PagedKv.Invariant.{ManagerInv, SequenceInv-frame, owed_by}

-- On a well-formed manager, switching the prefix cache on or off always succeeds and keeps the
-- manager well formed. Switched on, only the flag changes. Switched off, the flag is off, no page
-- is left in the eviction order, the references of the pages are as they were, and so is everything
-- outside of the page fields. Either way no available page is lost and the LRU counter stays.
pub set_prefix_caching-Returns :
    (m : Manager)
    → ManagerInv m
    → (enabled : Bool)
    → Returns
        (λ _ t.
          ManagerInv t
          × (t ≡ record m { pool = t.pool })
          × PoolSwitched enabled m.pool t.pool
          × (available_pages t.pool ≡ available_pages m.pool)
          × (t.next_tick ≡ m.next_tick))
        (on_pool (set_prefix_caching enabled) m)
set_prefix_caching-Returns m v enabled =
    let (u, run, switched, inv, kept, tick, available) =
      set_prefix_caching_lem m.config.num_pages (owed_by m.sequences) (λ _. 0) enabled m.pool
        v.pool in
    (
      tt,
      record m { pool = u },
      rw (run, on_pool) refl,
      (
        record {
          blocks = v.blocks;
          few_pages = v.few_pages;
          short = v.short;
          sequences_ordered = v.sequences_ordered;
          reservations_ordered = v.reservations_ordered;
          pool = inv;
          each = λ id q e.
              SequenceInv-frame m.config m.pool u m.reservations m.reservations id q (λ p w. kept p)
                (λ rid pe. refl) (v.each id q e);
          reserved = v.reserved;
        },
        refl,
        switched,
        available,
        tick,
      ),
    )
