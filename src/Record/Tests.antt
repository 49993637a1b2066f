-- ===== src/Record/Tests.antt =====
-- Record.antt at two versions of one key.
use kvdb.Base.{◌≡◌, refl, true, [], ◌∷◌}
use kvdb.Entry.{entry_eq, memcmp}
use kvdb.Record.{InternalRecord, put, tombstone, node_lt, internal_before, disk_size}
use kvdb.Record.Order.{internal_before-node_lt}

abbrev old : InternalRecord
old = record { key_entry = 97 ∷ []; value_entry = 1 ∷ []; kind = put; seq_num = 4 }

abbrev new : InternalRecord
new = record { key_entry = 97 ∷ []; value_entry = []; kind = tombstone; seq_num = 9 }

newest_first : node_lt new old ≡ true
unfolding node_lt entry_eq memcmp
newest_first = refl

disk_size-old : disk_size old ≡ 27
unfolding disk_size
disk_size-old = refl

internal_before-node_lt_example : internal_before new old ≡ node_lt new old
internal_before-node_lt_example = internal_before-node_lt new old
