-- ===== src/Pilot/Untyped.antt =====
-- The table has no column for the type of a subnet, but the sync compares it.
use icmp_mon.Base.{◌≡◌, List, none, some, true, In}
use icmp_mon.Pilot.{IpPool, Subnet, get_subnet_by_pilot_id}
use icmp_mon.Pilot.Sync.{sync_pool, update_from, subnet_needs_update}
use icmp_mon.Pilot.Seeding.{World, Synced}
use icmp_mon.Pilot.Keyed.{Keyed}
use icmp_mon.Pilot.Lookup.{Agrees}

-- No row has a type.
abbrev pub Untyped : List Subnet → Type 0
Untyped rows = (r : Subnet) → In r rows → r.subnet_type ≡ none

-- The subnet of a pool with a type agrees with it, and is taken to need an update all the same.
abbrev pub Stale : IpPool → Synced → Type 0
Stale pool s =
    (existing : Subnet) × (get_subnet_by_pilot_id pool.id s.db ≡ some existing)
    × Agrees existing pool
    × (subnet_needs_update existing pool ≡ true)
    × ((next : World)
        → next.gets pool.id ≡ true
        → sync_pool next pool s ≡ record s { db = update_from next existing pool s.db })
