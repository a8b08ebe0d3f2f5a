-- ===== src/Config/Memory.antt =====
-- The objects that configurations share: a Go map is a reference, and a HostConfig holds a pointer, so a
-- copy of a Config by value still writes through to the original.
use mole_port.Base.{
  Map, Option, String, delete, if◌then◌else◌, no_entries, none, put, some, ℕ, ◌==◌,
}
use mole_port.Core.Settings.{HostConfig, ReconnectOverride, no_override}

pub record Memory : Type 0 where
  pub map_at : ℕ → Map HostConfig
  pub next_map : ℕ
  pub override_at : ℕ → ReconnectOverride
  pub next_override : ℕ

abbrev pub empty_memory : Memory
empty_memory = record {
  map_at = λ p. no_entries;
  next_map = 0;
  override_at = λ p. no_override;
  next_override = 0;
}

abbrev pub follow : Memory → HostConfig → Option ReconnectOverride
follow mem hc = elim hc.reconnect [ none ↦ none | some q ↦ some (mem.override_at q) ]

-- What a reader finds under a name, a nil map having no entries.
unfoldable pub host_view : Memory → Option ℕ → Map (Option ReconnectOverride)
host_view mem none name = none
host_view mem (some p) name = elim (mem.map_at p name) [
  | none ↦ none
  | some hc ↦ some (follow mem hc)
]

-- m[name] = hc, and delete(m, name)
abbrev pub put_host : ℕ → String → HostConfig → Memory → Memory
put_host p name hc mem = record mem {
  map_at = λ q. if p == q then put (mem.map_at q) name hc else mem.map_at q;
}

abbrev pub delete_host : ℕ → String → Memory → Memory
delete_host p name mem = record mem {
  map_at = λ q. if p == q then delete (mem.map_at q) name else mem.map_at q;
}

abbrev pub put_override : ℕ → ReconnectOverride → Memory → Memory
put_override p o mem = record mem { override_at = λ q. if p == q then o else mem.override_at q }
