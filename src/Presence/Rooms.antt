-- ===== src/Presence/Rooms.antt =====
-- Who is in which room after joining, leaving and disconnecting.
use nexus_ide.Common.Dict
use nexus_ide.Common.Dict.{Dict, get-put, get-delete}
use nexus_ide.Common.{
  ℕ, String, ◌≡◌, refl, sym, ap, ◌∙◌, false, ◌&&◌, Option, none, some, [], ◌∷◌, arith, Bool-cases,
  inl, inr, str_eq, eq_iff, eq_refl, if◌then◌else◌,
}
use nexus_ide.Presence.{
  PresenceMember, User, HashServer, Rooms, Presence, room_of, add_member, put_or_delete,
  remove_from, remove_member, new_member, join_workspace, member_at, drop_socket, disconnect,
  leave_workspace,
}

module _ {R : Type 0} (server : HashServer R) where
  pub member-add :
      (ws other socket peer : String) (m : PresenceMember) (rooms : Rooms)
      → member_at server other peer (add_member ws socket m rooms) ≡ (
          if str_eq ws other && str_eq socket peer
          then some m
          else member_at server other peer rooms)
  unfolding member_at add_member room_of
  member-add ws other socket peer m rooms = elim (Bool-cases (str_eq ws other)) [
    | inl same ↦ rw (get-put ws other (Dict.put socket m (room_of (Dict.get ws rooms))) rooms) (
        rw same (
          get-put socket peer m (room_of (Dict.get ws rooms))
          ∙ ap
              (λ w.
                if str_eq socket peer then some m else Dict.get peer (room_of (Dict.get w rooms)))
              ((eq_iff ws other).0 same)))
    | inr d ↦
        rw (get-put ws other (Dict.put socket m (room_of (Dict.get ws rooms))) rooms) (rw d refl)
  ]

  put_or_delete-room :
      (ws other : String) (room : Dict PresenceMember) (rooms : Rooms)
      → room_of (Dict.get other (put_or_delete ws room rooms))
        ≡ (if str_eq ws other then room else room_of (Dict.get other rooms))
  unfolding put_or_delete room_of
  put_or_delete-room ws other [] rooms = rw (get-delete ws other rooms) (ground arith)
  put_or_delete-room ws other (e ∷ room) rooms =
      rw (get-put ws other (e ∷ room) rooms) (ground arith)

  pub member-remove :
      (ws other socket peer : String) (rooms : Rooms)
      → member_at server other peer (remove_member ws socket rooms) ≡ (
          if str_eq ws other && str_eq socket peer then none else member_at server other peer rooms)
  unfolding member_at remove_member
  member-remove ws other socket peer rooms = go (Dict.get ws rooms) refl
    where
      go :
          (o : Option (Dict PresenceMember))
          → Dict.get ws rooms ≡ o
          → Dict.get peer (room_of (Dict.get other (remove_from ws socket o rooms))) ≡ (
              if str_eq ws other && str_eq socket peer
              then none
              else Dict.get peer (room_of (Dict.get other rooms)))
      go none e = elim (Bool-cases (str_eq ws other)) [
        | inl same ↦
            ground (arith, same, sym (ap (λ w. Dict.get w rooms) ((eq_iff ws other).0 same)), e)
        | inr d ↦ rw d refl
      ]
      go (some room) e =
          rw (put_or_delete-room ws other (Dict.delete socket room) rooms)
            (elim (Bool-cases (str_eq ws other)) [
              | inl same ↦ rw same (
                  rw (sym (ap (λ w. Dict.get w rooms) ((eq_iff ws other).0 same)) ∙ e)
                    (get-delete socket peer room))
              | inr d ↦ rw d refl
            ])

  -- Joining a workspace and leaving it takes the socket out of that room and changes nothing else:
  -- every other socket is in the rooms it was in, and so is this one in the other rooms.
  pub leave-join :
      (socket ws other peer : String) (u : User) (now : ℕ) (p : Presence R)
      → str_eq ws "" ≡ false
      → member_at server other peer
          (leave_workspace server socket
            (join_workspace server socket (some u) ws now p)).workspace_presence
        ≡ (if str_eq ws other && str_eq socket peer
            then none
            else member_at server other peer p.workspace_presence)
  unfolding leave_workspace disconnect drop_socket join_workspace
  leave-join socket ws other peer u now p named = rw named (
      rw (get-put socket socket ws p.presence_workspace_id) (
        rw (eq_refl socket) (
          member-remove ws other socket peer
            (add_member ws socket (new_member server u) p.workspace_presence)
          ∙ ground
              (arith, member-add ws other socket peer (new_member server u) p.workspace_presence))))

  -- A socket that joins a second workspace without leaving the first, and then disconnects, stays a
  -- member of the first.
  pub second_join_leaves_ghost :
      (socket ws second : String) (u : User) (now later : ℕ) (p : Presence R)
      → str_eq ws "" ≡ false
      → str_eq second "" ≡ false
      → str_eq second ws ≡ false
      → member_at server ws socket
          (disconnect server socket (
            join_workspace server socket
              (some u)
              second
              later
              (join_workspace server socket (some u) ws now p))).workspace_presence
        ≡ some (new_member server u)
  unfolding disconnect drop_socket join_workspace
  second_join_leaves_ghost socket ws second u now later p named named_second d =
      let first : Rooms = add_member ws socket (new_member server u) p.workspace_presence in
      rw named_second (
        rw named (
          rw (get-put socket socket second (Dict.put socket ws p.presence_workspace_id)) (
            rw (eq_refl socket) (
              member-remove second ws socket socket
                (add_member second socket (new_member server u) first)
              ∙ ground (
                arith,
                d,
                eq_refl socket,
                eq_refl ws,
                member-add second ws socket socket (new_member server u) first,
                member-add ws ws socket socket (new_member server u) p.workspace_presence,
              )))))
