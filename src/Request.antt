-- ===== src/Request.antt =====
-- REQ_CODEC of src/mc_core.h: the types of request, and the numbers of tokens that each may have.
use twemcache.Base.{ℕ, Bool, true, false, ◌&&◌, ◌^◌, ◌-◌, leb}

pub data ReqType : Type 0 where
  req_unknown req_set req_add req_replace req_append req_prepend : ReqType
  req_appendrl req_prependrl req_cas req_get req_gets req_incr req_decr : ReqType
  req_delete req_quit req_stats req_config req_version req_flushall : ReqType
  req_verbosity : ReqType

abbrev pub int_max : ℕ
int_max = 2 ^ 31 - 1

-- ntoken_bound: the least and the greatest number, without and with noreply.
unfoldable pub bound_min : ReqType → Bool → ℕ
bound_min req_unknown noreply = 0
bound_min req_cas false = 7
bound_min req_cas true = 8
bound_min req_get noreply = 3
bound_min req_gets noreply = 3
bound_min req_incr false = 4
bound_min req_incr true = 5
bound_min req_decr false = 4
bound_min req_decr true = 5
bound_min req_delete false = 3
bound_min req_delete true = 4
bound_min req_quit noreply = 2
bound_min req_stats noreply = 2
bound_min req_config noreply = 3
bound_min req_version noreply = 2
bound_min req_flushall false = 2
bound_min req_flushall true = 3
bound_min req_verbosity noreply = 3
bound_min _ false = 6
bound_min _ true = 7

unfoldable pub bound_max : ReqType → Bool → ℕ
bound_max req_unknown noreply = 0
bound_max req_cas false = 7
bound_max req_cas true = 8
bound_max req_get noreply = int_max
bound_max req_gets noreply = int_max
bound_max req_incr false = 4
bound_max req_incr true = 5
bound_max req_decr false = 4
bound_max req_decr true = 5
bound_max req_delete false = 3
bound_max req_delete true = 4
bound_max req_quit noreply = 2
bound_max req_stats noreply = 5
bound_max req_config noreply = 5
bound_max req_version noreply = 2
bound_max req_flushall false = 3
bound_max req_flushall true = 4
bound_max req_verbosity noreply = 4
bound_max _ false = 6
bound_max _ true = 7

unfoldable pub in_bound : ReqType → Bool → ℕ → Bool
unfolding bound_min bound_max
in_bound type noreply ntoken =
    leb (bound_min type noreply) ntoken && leb ntoken (bound_max type noreply)
