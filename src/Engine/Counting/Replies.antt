-- ===== src/Engine/Counting/Replies.antt =====
-- The handler of a running queue keeps the counters, whatever the reply and whatever it was for.
use fxp_one.Prelude.{
  ℕ, Bool, true, false, List, [], ◌∷◌, Option, none, some, Text, refl, ℤ, pos, negsuc,
  if◌then◌else◌, ◌>>=◌, ◌&&◌, codes, contains, drop, case_starts_with,
}
use fxp_one.Lion.{Lion}
use fxp_one.Queue.Types.{Side, Qitem}
use fxp_one.Queue.Accounting.{xdupe-IsCounted}
use fxp_one.Queue.Requests.{queue_xdupe_item}
use fxp_one.Session.{Session}
use fxp_one.Engine.World.{World, Notice, qs_mkd, notify, session, set_queue, on_head, head_item}
use fxp_one.Engine.Handlers.{
  tell_cwd, src_cwd, got_size, fail_side, got_pasv, secured, unless_code, unless_2xx, count_if_any,
  look_for_xdupe, got_stor, got_retr, dir_dst_cwd, made_dir, made_dir_or_fail, fail_src, fail_dst,
  mkdname_same, is_reply, scan_size, got_address, up_to_close, behind_open, set_sizes,
}
use fxp_one.Engine.Counting.{
  IsCountedWorld, Keeps, IsKeeping, keeps_rules, counted_like, Keeps-on_head, Keeps-bind,
  Keeps-some, Keeps-none, Keeps-if, Keeps-users, Keeps-bind_any, Keeps-option,
}

pub notify-counted : (n : Notice) (w : World) → IsCountedWorld w → IsCountedWorld (notify n w)
unfolding notify
notify-counted n w c = search counted_like

pub fail_src-Keeps : (line : Text) (w : World) → IsCountedWorld w → Keeps (fail_src line w)
unfolding fail_src
fail_src-Keeps line w c = search keeps_rules

pub fail_dst-Keeps : (line : Text) (w : World) → IsCountedWorld w → Keeps (fail_dst line w)
unfolding fail_dst
fail_dst-Keeps line w c = search keeps_rules

pub fail_side-Keeps :
    (is_src : Bool) (line : Text) (w : World) → IsCountedWorld w → Keeps (fail_side is_src line w)
unfolding fail_side
fail_side-Keeps true line w c = fail_src-Keeps line w c
fail_side-Keeps false line w c = fail_dst-Keeps line w c

pub ruleset reply_rules =
    (keeps_rules, notify-counted, fail_src-Keeps, fail_dst-Keeps, fail_side-Keeps)

pub tell_cwd-Keeps :
    (line : Text) (n : Qitem → Notice) (w : World) → IsCountedWorld w → Keeps (tell_cwd line n w)
unfolding tell_cwd
tell_cwd-Keeps line n w c = Keeps-if (contains (codes "cached") line) _ _ (Keeps-some w c) (
    Keeps-users w.queue.users _ _ (Keeps-some w c) (
      Keeps-option (head_item w.queue.items) none _ Keeps-none
        (λ x. Keeps-some _ (notify-counted (n x) w c))))

pub src_cwd-Keeps :
    (n : Qitem → Notice) (reply : ℤ) (line : Text) (w : World)
    → IsCountedWorld w
    → Keeps (src_cwd n reply line w)
unfolding src_cwd
src_cwd-Keeps n reply line w c = search (reply_rules, tell_cwd-Keeps)

pub got_size-Keeps :
    (is_src : Bool) (reply : ℤ) (line : Text) (w : World)
    → IsCountedWorld w
    → Keeps (got_size is_src reply line w)
unfolding got_size
got_size-Keeps is_src reply line w c =
    Keeps-if (is_reply reply 213) _ _
      (Keeps-option (scan_size line) (some w) _ (Keeps-some w c)
        (λ n. Keeps-on_head (set_sizes is_src n) w c))
      (Keeps-some w c)

got_address-Keeps : (t : Text) (w : World) → IsCountedWorld w → Keeps (got_address t w)
unfolding got_address
got_address-Keeps t w c =
    Keeps-option (up_to_close t) _ _ (fail_side-Keeps w.queue.srcpasv t w c)
      (λ address. search keeps_rules)

pub got_pasv-Keeps :
    (reply : ℤ) (line : Text) (w : World) → IsCountedWorld w → Keeps (got_pasv reply line w)
unfolding got_pasv
got_pasv-Keeps reply line w c =
    Keeps-if (is_reply reply 227) _ _
      (Keeps-option (behind_open line) _ _ (fail_side-Keeps w.queue.srcpasv line w c)
        (λ t. got_address-Keeps t w c))
      (fail_side-Keeps w.queue.srcpasv line w c)

pub secured-Keeps :
    (is_src : Bool) (reply : ℤ) (line : Text) (w : World)
    → IsCountedWorld w
    → Keeps (secured is_src reply line w)
unfolding secured
secured-Keeps is_src reply line w c = search reply_rules

pub unless_code-Keeps :
    (code : ℕ) (is_src : Bool) (reply : ℤ) (line : Text) (w : World)
    → IsCountedWorld w
    → Keeps (unless_code code is_src reply line w)
unfolding unless_code
unless_code-Keeps code is_src reply line w c = search reply_rules

pub unless_2xx-Keeps :
    (is_src : Bool) (reply : ℤ) (line : Text) (w : World)
    → IsCountedWorld w
    → Keeps (unless_2xx is_src reply line w)
unfolding unless_2xx
unless_2xx-Keeps is_src reply line w c = search reply_rules

pub count_if_any-counted :
    (f : Qitem → Qitem) (w : World) → IsCountedWorld w → IsCountedWorld (count_if_any f w)
unfolding count_if_any
count_if_any-counted f w c = by_step (on_head f w) (Keeps-on_head f w c)
  where
    by_step : (o : Option World) → Keeps o → IsCountedWorld (elim o [ none ↦ w | some v ↦ v ])
    by_step none k = c
    by_step (some v) k = k.at v refl

look_for_xdupe-counted :
    (lion : Lion) (side : Side) (line : Text) (w : World)
    → IsCountedWorld w
    → IsCountedWorld (look_for_xdupe lion side line w)
unfolding look_for_xdupe
look_for_xdupe-counted lion side line w c = by_session (session side w)
  where
    moved : IsCountedWorld (set_queue (queue_xdupe_item lion w.queue (drop 15 line)) w)
    moved = record { counted = xdupe-IsCounted lion w.queue (drop 15 line) c.counted }

    by_test :
        (b : Bool)
        → IsCountedWorld
            (if b then set_queue (queue_xdupe_item lion w.queue (drop 15 line)) w else w)
    by_test true = moved
    by_test false = c

    by_session :
        (o : Option Session)
        → IsCountedWorld (elim o [
          | none ↦ w
          | some s ↦
              if s.status.on_xdupe && case_starts_with (codes "226-+X-DUPE%3A+") line
              then set_queue (queue_xdupe_item lion w.queue (drop 15 line)) w
              else w
        ])
    by_session none = c
    by_session (some s) =
        by_test (s.status.on_xdupe && case_starts_with (codes "226-+X-DUPE%3A+") line)

pub got_stor-Keeps :
    (lion : Lion) (reply : ℤ) (line : Text) (side : Side) (w : World)
    → IsCountedWorld w
    → Keeps (got_stor lion reply line side w)
unfolding got_stor
got_stor-Keeps lion (negsuc n) line side w c = search (reply_rules, look_for_xdupe-counted)
got_stor-Keeps lion (pos r) line side w c = search reply_rules

pub got_retr-Keeps :
    (reply : ℤ) (line : Text) (w : World) → IsCountedWorld w → Keeps (got_retr reply line w)
unfolding got_retr
got_retr-Keeps reply line w c = search reply_rules

pub dir_dst_cwd-Keeps :
    (reply : ℤ) (line : Text) (w : World) → IsCountedWorld w → Keeps (dir_dst_cwd reply line w)
unfolding dir_dst_cwd
dir_dst_cwd-Keeps reply line w c = search (reply_rules, tell_cwd-Keeps)

abbrev cleared : Qitem → Qitem
cleared x = record x { dst_failure = 0 }

made_dir-Keeps : (w : World) → IsCountedWorld w → Keeps (made_dir w)
unfolding made_dir
made_dir-Keeps w c = by_users w.queue.users
  where
    told : Keeps (mkdname_same w >>= (λ name. on_head cleared (notify (qs_mkd name) w)))
    told =
        Keeps-bind_any (mkdname_same w) _
          (λ name. Keeps-on_head cleared _ (notify-counted (qs_mkd name) w c))

    by_users :
        (us : List (Option ℕ))
        → Keeps (elim us [
          | [] ↦ on_head cleared w
          | u ∷ vs ↦ mkdname_same w >>= (λ name. on_head cleared (notify (qs_mkd name) w))
        ])
    by_users [] = Keeps-on_head cleared w c
    by_users (u ∷ us) = told

pub made_dir_or_fail-Keeps :
    (next : World → Option World) (reply : ℤ) (line : Text) (w : World)
    → ((v : World) → IsCountedWorld v → Keeps (next v))
    → IsCountedWorld w
    → Keeps (made_dir_or_fail next reply line w)
unfolding made_dir_or_fail
made_dir_or_fail-Keeps next reply line w n c = search (reply_rules, made_dir-Keeps)

pub ruleset replied_rules = (
  reply_rules, tell_cwd-Keeps, src_cwd-Keeps, got_size-Keeps, got_pasv-Keeps, secured-Keeps,
  unless_code-Keeps, unless_2xx-Keeps, got_stor-Keeps, got_retr-Keeps, dir_dst_cwd-Keeps,
  made_dir_or_fail-Keeps, count_if_any-counted,
)
