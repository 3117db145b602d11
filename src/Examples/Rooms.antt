-- ===== src/Examples/Rooms.antt =====
-- Two sockets of two users in and out of a room.
use bookit.Common.{◌≡◌, refl, ◌&&◌, not, List, [], ◌∷◌, pos}
use bookit.WebSocket.Rooms.{
  empty_adapter, broadcast_to_room_local, broadcast_to_room_excluding_user, send_to_user_local,
  Operation, adds, removes, subscribes, operate_all,
}
use bookit.WebSocket.Delivered.{
  unused, life_after, live_on, NewIds, is_in, is_of, operate_all-delivered,
}

abbrev history : List Operation
history =
    adds "s1" (pos 42)
    ∷ subscribes "s1" (pos 7)
    ∷ adds "s2" (pos 43)
    ∷ subscribes "s2" (pos 7)
    ∷ removes "s1" (pos 42)
    ∷ []

new_ids : NewIds "s2" history unused
unfolding NewIds live_on
new_ids = (λ e. cc e, (λ e. cc e, (λ e. refl, (λ e. tt, (λ e. cc e, tt)))))

operate_all-delivered_example :
    (broadcast_to_room_local (operate_all history empty_adapter) (pos 7) "s2"
      ≡ is_in (pos 7) (life_after "s2" history unused))
    × ((send_to_user_local (operate_all history empty_adapter) (pos 43) "s2"
          ≡ is_of (pos 43) (life_after "s2" history unused))
        × (broadcast_to_room_excluding_user
              (operate_all history empty_adapter)
              (pos 7)
              (pos 43)
              "s2"
            ≡ (is_in (pos 7) (life_after "s2" history unused)
                && not (is_of (pos 43) (life_after "s2" history unused)))))
operate_all-delivered_example = operate_all-delivered "s2" history (pos 7) (pos 43) new_ids
