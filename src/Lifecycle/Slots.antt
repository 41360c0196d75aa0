-- ===== src/Lifecycle/Slots.antt =====
-- Facts on the three pointers to clients, by the pointer that a call changes.
use nxos_dhcp6_exporter.Prelude.{Option}
use nxos_dhcp6_exporter.Lifecycle.{Slot, management, heartbeat, dying, Clients, client_at, put}

module _ {C : Type 0} (P : Option C → Type 0) where
  abbrev pub All : Clients C → Type 0
  All cs = P cs.management_client × P cs.heartbeat_client × P cs.dying_client

  abbrev pub AllBut : Slot → Clients C → Type 0
  AllBut management cs = P cs.heartbeat_client × P cs.dying_client
  AllBut heartbeat cs = P cs.management_client × P cs.dying_client
  AllBut dying cs = P cs.management_client × P cs.heartbeat_client

  pub All-at : (w : Slot) (cs : Clients C) → All cs → P (client_at w cs)
  All-at management cs (m, h, d) = m
  All-at heartbeat cs (m, h, d) = h
  All-at dying cs (m, h, d) = d

  pub All-but : (w : Slot) (x : Option C) (cs : Clients C) → All cs → AllBut w (put w x cs)
  All-but management x cs (m, h, d) = (h, d)
  All-but heartbeat x cs (m, h, d) = (m, d)
  All-but dying x cs (m, h, d) = (m, h)

  pub All-put : (w : Slot) (x : Option C) (cs : Clients C) → AllBut w cs → P x → All (put w x cs)
  All-put management x cs (h, d) p = (p, h, d)
  All-put heartbeat x cs (m, d) p = (m, p, d)
  All-put dying x cs (m, h) p = (m, h, p)

  pub All-set : (w : Slot) (x : Option C) (cs : Clients C) → All cs → P x → All (put w x cs)
  All-set management x cs (m, h, d) p = (p, h, d)
  All-set heartbeat x cs (m, h, d) p = (m, p, d)
  All-set dying x cs (m, h, d) p = (m, h, p)

module _ {C D : Type 0} (R : Option C → Option D → Type 0) where
  -- The relation holds at each pointer.
  abbrev pub Each : Clients C → Clients D → Type 0
  Each cs ds =
      R cs.management_client ds.management_client
      × R cs.heartbeat_client ds.heartbeat_client
      × R cs.dying_client ds.dying_client

  pub Each-at :
      (w : Slot) (cs : Clients C) (ds : Clients D)
      → Each cs ds
      → R (client_at w cs) (client_at w ds)
  Each-at management cs ds (m, h, d) = m
  Each-at heartbeat cs ds (m, h, d) = h
  Each-at dying cs ds (m, h, d) = d

  pub Each-put :
      (w : Slot) (x : Option C) (y : Option D) (cs : Clients C) (ds : Clients D)
      → Each cs ds
      → R x y
      → Each (put w x cs) (put w y ds)
  Each-put management x y cs ds (m, h, d) r = (r, h, d)
  Each-put heartbeat x y cs ds (m, h, d) r = (m, r, d)
  Each-put dying x y cs ds (m, h, d) r = (m, h, r)
