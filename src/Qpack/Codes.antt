-- ===== src/Qpack/Codes.antt =====
-- include/qpack/qpack.h: `qp_types_t`.
use siridb_server.Base.{ℕ}

abbrev pub qp_end : ℕ
qp_end = 0

abbrev pub qp_err : ℕ
qp_err = 1

abbrev pub qp_raw : ℕ
qp_raw = 2

abbrev pub qp_int64 : ℕ
qp_int64 = 235

abbrev pub qp_double : ℕ
qp_double = 236

abbrev pub qp_array0 : ℕ
qp_array0 = 237

abbrev pub qp_array5 : ℕ
qp_array5 = 242

abbrev pub qp_map0 : ℕ
qp_map0 = 243

abbrev pub qp_map5 : ℕ
qp_map5 = 248

abbrev pub qp_true : ℕ
qp_true = 249

abbrev pub qp_false : ℕ
qp_false = 250

abbrev pub qp_null : ℕ
qp_null = 251

abbrev pub qp_array_open : ℕ
qp_array_open = 252

abbrev pub qp_map_open : ℕ
qp_map_open = 253

abbrev pub qp_array_close : ℕ
qp_array_close = 254

abbrev pub qp_map_close : ℕ
qp_map_close = 255
