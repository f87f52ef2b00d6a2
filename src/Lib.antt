-- ===== src/Lib.antt =====
-- A verification library of twemcache, Twitter's memcached in C (src/mc_*.c).
--
-- The server keeps items (src/mc_items.c) in chunks of slabs (src/mc_slabs.c), finds them by a hash
-- table that grows step by step (src/mc_assoc.c), and orders them for eviction in lru queues. The
-- modules that share memory in C share one record here, and each C function is a function from that
-- record to the next.
--
-- Assoc is src/mc_assoc.c. The record `Assoc` is its static variables; assoc_find is `find`,
--   assoc_insert `insert`, assoc_delete `delete`, a round of the maintenance thread's loop
--   `move_bucket`. The hash function is a parameter: what is proved holds for every one.
-- Store is `struct item`, `struct slab`, `struct slabclass`, the queues and static variables of
--   src/mc_items.c and src/mc_slabs.c as one record, with the settings (src/mc_core.h) and the
--   answers of the C library (`Env`: rand and malloc) beside it.
-- Link is what the items and the slabs call of each other: reference counts, lru queues, item_reuse.
-- SlabClass is slab_id of src/mc_slabs.c. Its loop runs on fuel 256, which is proved to be enough.
-- Slabs is the rest of src/mc_slabs.c, from slab_init to slab_get_item and slab_put_item.
-- Items is src/mc_items.c up to _item_get, and src/mc_items.h. Items.Ops: its commands, from
--   item_set to item_delete and the flush. The names are those of the functions; a public function
--   and its static twin under cache_lock are one definition, but Items.item_get is _item_get, and the public
--   item_get, which samples the key for the detector of hot keys, is get_sampled of Ascii.Read.
-- Util is mc_strtoull_len and _mc_atoi of src/mc_util.c, and the decimal print that item_delta uses.
--   The print has fuel for the 20 digits of a 64-bit number.
-- RingArray is src/mc_ring_array.c.
-- KcMap is src/mc_kc_map.c, with fuel of one round for each entry, which is proved to be enough
--   where an entry is free. KeyWindow is src/mc_key_window.c over it, and Hotkey is
--   hotkey_sample of src/mc_hotkey.c over that.
-- Clock is src/mc_time.c.
-- Cache is src/mc_cache.c, a pool of free buffers.
-- Number is mc_strtoul, mc_strtoull and mc_strtol of src/mc_util.c over the C library's functions,
--   which are the fields of `Libc`.
-- Request is the table of commands of src/mc_core.h, and Token the tokenizer and the recognition of
--   commands of src/mc_ascii.c.
-- Conn is `struct conn` and the preparation of writes of src/mc_connection.c. conn_add_iov has fuel
--   of one round more than there are bytes, which is proved to be enough on TCP.
-- Core is core_transmit of src/mc_core.c, the states CONN_NREAD and CONN_SWALLOW of
--   core_drive_machine, core_read, core_reset_cmd_handler, and conn_cleanup of src/mc_connection.c;
--   Core.Drive is core_drive_machine, over a list of the answers of its rounds. What the socket
--   answers is an argument.
-- Ascii is src/mc_ascii.c: the replies and checks, and in its child modules the commands. A command
--   is a function on `Server`: the store, the settings, the clock and the connection. Storage and
--   Complete are the two halves of a command with a data block, Counter is incr, decr and delete,
--   Read is get and gets, whose outer loop runs on a number of rounds, with `none` where it still
--   runs or where hotkey_sample does not end, Admin and Config are flush_all, verbosity and config, and Dispatch is asc_parse and
--   asc_dispatch.
-- Profile is mc_generate_profile and mc_parse_profile of src/mc.c, which choose the slab classes, and
--   Options its mc_set_default_options and mc_get_options. The product with settings.factor, a double,
--   is a parameter, as is what getopt_long() returns.
--
-- Conventions. A pointer is a number and NULL is `none`; a TAILQ or SLIST is a list of addresses.
-- Machine words are natural numbers with their wrap-around written out. The build modelled is the
-- one with statistics, assertions and debug logging compiled out, on a 64-bit platform. Each
-- operation holds cache_lock throughout, so it is one step. An item's payload is the list of bytes at
-- item_data(it), not the bytes in the chunk.
--
-- Not modelled: sockets, threads, signals, logging and the rest of start-up, which are system calls; the
-- commands stats and config hotkey, which are arguments of the dispatch,
-- and core_accept; the statistics and the command log, which do not change what the modules above do
-- to the store; the changes of the settings of the hot key detector while it runs; item_cache_dump.
--
-- Ready means of a store: its hash table is valid, and what it finds has the flag ITEM_LINKED. The
-- index is assoc_find as a function of the key.
pub mod Base
pub mod Assoc
pub mod Store
pub mod Link
pub mod SlabClass
pub mod Util
pub mod Slabs
pub mod Items
pub mod RingArray
pub mod Clock
pub mod KcMap
pub mod KeyWindow
pub mod Hotkey
pub mod Cache
pub mod Number
pub mod Request
pub mod Token
pub mod Conn
pub mod Core
pub mod Ascii
pub mod Profile
pub mod Options
