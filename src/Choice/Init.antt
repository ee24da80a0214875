-- ===== src/Choice/Init.antt =====
-- `choice_init`: the functions of src/CaptureDpdk/choice.c in the order in which it calls them. The
-- configuration file is what `dofile` of json.c finds in it: `none` where the file does not open,
-- and inside it `none` where the text does not parse.
pub mod Works
pub mod Modes
use platform.Common.{ℕ, zero, suc, ◌+◌, ◌-◌, ◌%◌, ◌^◌, Option, none, some, List}
use platform.Common.{Outcome, ok, fault, ◌>>=◌, store, expect}
use platform.Double.{Double}
use platform.PortTable.{Uthash, Item, c_json_to_struct_array}
use platform.Device.{Context, core_size}
use platform.Choice.Rings.{get_port_ringnum}
use platform.Choice.Cores.{bind_core_length, get_core_portnum, get_core_queuenum, get_port_queuenum}
use platform.Choice.Cores.{get_thread_portinfo}

-- The loop that clears the two arrays for `n` cores from `id` on.
pub clear_cores : ℕ → ℕ → Context → Outcome Context
clear_cores zero id ctx = ok ctx
clear_cores (suc n) id ctx = do
  ports ← store core_size ctx.core_portnum id 0
  queues ← store core_size ctx.core_queuenum id 0
  clear_cores n (id + 1) (record ctx { core_portnum = ports; core_queuenum = queues })

-- `ctx->end = ctx->start + bind_core_length(ctx) - 1`, a `uint16_t`, and the loop over the range.
pub set_range : ℕ → Context → Outcome Context
set_range dev_count ctx = do
  length ← bind_core_length dev_count ctx
  let end = (ctx.start + length + 2 ^ 16 - 1) % 2 ^ 16
  clear_cores (end + 1 - ctx.start) ctx.start (record ctx { end = end })

module _ (d : Double) (u : Uthash d) where
  -- A file that does not open is a stream that is NULL.
  unfoldable pub dofile : Option (Option (List (Item d))) → u.Table → Outcome u.Table
  dofile none t = fault
  dofile (some parsed) t = c_json_to_struct_array d u parsed t

module _ (d : Double) (u : Uthash d) (link_speed : ℕ → ℕ) (dev_count : ℕ) where
  pub choice_init :
      Option (Option (List (Item d))) → u.Table → Context → Outcome (Context × u.Table)
  choice_init file t ctx = do
    table ← dofile d u file t
    ctx1 ← get_port_ringnum d u table link_speed ctx
    ctx2 ← get_port_queuenum d u table link_speed ctx1
    ctx3 ← get_thread_portinfo ctx2
    ctx4 ← set_range dev_count ctx3
    ctx5 ← get_core_portnum ctx4
    ctx6 ← get_core_queuenum ctx5
    ok (ctx6, table)
