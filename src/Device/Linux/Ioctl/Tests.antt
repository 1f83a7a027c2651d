-- ===== src/Device/Linux/Ioctl/Tests.antt =====
-- A route request on a 64-bit machine.
use Prim.Native.String.{String}
use text.Mathlib.Text.{◌==◌ as str_eq}
use an_app.Base.{ℕ, zero, suc, refl, List, [], ◌∷◌, ◌++◌, if◌then◌else◌}
use an_app.Device.Linux.Ioctl.Memory.{Bytes, Field, Sized}
use an_app.Device.Linux.Ioctl.Layout.{rtentry_64, in6_rtmsg_64}
use an_app.Device.Linux.Ioctl.Headers.{
  Found, kernel_rtentry, kernel_in6_rtmsg, two_parts, routes_reach_kernel_64,
}

-- The bytes of a route request, by the names of its fields.
abbrev sevens : ℕ → Bytes
sevens zero = []
sevens (suc n) = 7 ∷ sevens n

abbrev field_bytes : List Field → String → Bytes
field_bytes [] name = []
field_bytes (f ∷ fs) name =
    let rest = field_bytes fs name in if str_eq f.name name then sevens f.size else rest

abbrev request : String → Bytes
request = field_bytes (rtentry_64 ++ in6_rtmsg_64)

rtentry_Sized : Sized request rtentry_64
unfolding rtentry_64 in6_rtmsg_64
rtentry_Sized = (
  refl,
  (
    refl,
    (
      refl,
      (
        refl,
        (
          refl,
          (
            refl,
            (
              refl,
              (
                refl,
                (refl, (refl, (refl, (refl, (refl, (refl, (refl, (refl, (refl, (refl, tt)))))))))),
              ),
            ),
          ),
        ),
      ),
    ),
  ),
)

in6_rtmsg_Sized : Sized request in6_rtmsg_64
unfolding rtentry_64 in6_rtmsg_64
in6_rtmsg_Sized = (
  refl,
  (refl, (refl, (refl, (refl, (refl, (refl, (refl, (refl, (refl, (refl, (refl, tt))))))))))),
)

routes_reach_kernel_64_example :
    Found request rtentry_64 (kernel_rtentry 8 two_parts)
    × Found request in6_rtmsg_64 (kernel_in6_rtmsg 8 two_parts)
unfolding rtentry_64 in6_rtmsg_64
routes_reach_kernel_64_example = routes_reach_kernel_64 request rtentry_Sized in6_rtmsg_Sized
