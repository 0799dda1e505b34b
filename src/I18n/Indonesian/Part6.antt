-- ===== src/I18n/Indonesian/Part6.antt =====
-- web/src/lib/i18n/id.ts, lines 619 to 743.
use ku_crud.Base.{String, [], ◌∷◌}
use ku_crud.Base.Assoc.{Assoc}

abbrev pub indonesian_6 : Assoc String
indonesian_6 =
    ("users.empty", "Tidak ada pengguna")
    ∷ ("users.firstUser", "Pengguna Pertama")
    ∷ ("users.disabled", "Dinonaktifkan")
    ∷ ("users.active", "Aktif")
    ∷ ("users.protected", "Dilindungi")
    ∷ ("users.editTitle", "Ubah pengguna")
    ∷ ("users.deleteTitle", "Hapus pengguna")
    ∷ ("users.deleteConfirm", "Hapus pengguna \"{name}\"?")
    ∷ ("users.editDialog", "Ubah Pengguna: {name}")
    ∷ ("users.newDesc", "Buat akun login dan tetapkan peran")
    ∷ (
      "users.editDesc",
      "Ubah kata sandi, peran, atau status nonaktif (nama pengguna tidak dapat diubah)",
    )
    ∷ ("users.usernamePh", "mis. budi")
    ∷ ("users.password", "Kata Sandi")
    ∷ ("users.passwordKeepHint", "(kosongkan untuk mempertahankan)")
    ∷ ("users.passwordPh", "min 4 karakter")
    ∷ ("users.rolePh", "Pilih peran...")
    ∷ ("users.disabledDesc", "Diblokir dari login")
    ∷ ("users.save", "Simpan Pengguna")
    ∷ ("roles.title", "Peran")
    ∷ (
      "roles.subtitle",
      "Tentukan profil akses: bundel manajemen platform ditambah izin CRUD per tabel",
    )
    ∷ ("roles.add", "Tambah Peran")
    ∷ ("roles.role", "Peran")
    ∷ ("roles.platformAccess", "Akses Platform")
    ∷ ("roles.tableGrants", "Izin Tabel")
    ∷ ("roles.users", "Pengguna")
    ∷ ("roles.loading", "Memuat peran...")
    ∷ ("roles.builtin", "Bawaan")
    ∷ ("roles.fullPlatform", "Platform penuh")
    ∷ ("roles.tableOnly", "Hanya CRUD tabel")
    ∷ ("roles.allTables", "semua tabel (implisit)")
    ∷ ("roles.tableCount", "{count} tabel")
    ∷ ("roles.editTitle", "Ubah peran")
    ∷ ("roles.deleteTitle", "Hapus peran")
    ∷ ("roles.deleteConfirm", "Hapus peran \"{name}\"?")
    ∷ ("roles.editDialog", "Ubah Peran: {name}")
    ∷ (
      "roles.dialogDesc",
      "Akses platform mengatur menu pengelolaan yang terlihat untuk role ini; CRUD tabel memerlukan grant per tabel di bawah",
    )
    ∷ ("roles.name", "Nama Peran")
    ∷ ("roles.namePh", "mis. Editor Pesanan")
    ∷ ("roles.grant.title", "Akses platform")
    ∷ ("roles.grant.datasources", "Kelola datasource")
    ∷ ("roles.grant.datasourcesDesc", "Mendaftarkan dan mengedit koneksi database")
    ∷ ("roles.grant.tables", "Kelola definisi tabel")
    ∷ ("roles.grant.tablesDesc", "Mengatur tabel mana yang tampil dan perilakunya")
    ∷ ("roles.grant.audit", "Lihat jejak audit")
    ∷ ("roles.grant.auditDesc", "Melihat siapa mengubah apa, dan kapan")
    ∷ ("roles.grant.outbox", "Lihat outbox hook")
    ∷ ("roles.grant.outboxDesc", "Memantau hasil otomasi di latar belakang")
    ∷ ("roles.colTable", "Tabel")
    ∷ ("roles.colRead", "Baca")
    ∷ ("roles.colCreate", "Buat")
    ∷ ("roles.colUpdate", "Ubah")
    ∷ ("roles.colDelete", "Hapus")
    ∷ ("roles.noDefs", "Belum ada definisi tabel — izin dapat ditambahkan nanti")
    ∷ ("roles.save", "Simpan Peran")
    ∷ ("filter.add", "Tambah Filter")
    ∷ ("filter.ok", "OK")
    ∷ ("filter.between", "antara")
    ∷ ("filter.inList", "dalam daftar")
    ∷ ("filter.contains", "mengandung")
    ∷ ("filter.select", "Pilih...")
    ∷ ("kanban.noValue", "Tanpa nilai")
    ∷ ("kanban.addRecord", "Tambah rekaman")
    ∷ ("kanban.del", "Hapus")
    ∷ ("kanban.truncated", "Papan dipotong ({count} kartu)")
    ∷ ("kanban.loadMore", "Muat lagi")
    ∷ ("kanban.updateFailed", "pembaruan gagal")
    ∷ ("calendar.today", "Hari Ini")
    ∷ ("calendar.more", "+{count} lainnya")
    ∷ ("calendar.loading", "Memuat peristiwa…")
    ∷ ("errors.technicalDetail", "Detail teknis")
    ∷ ("errors.HOOK_REJECTED", "Aturan otomasi menolak perubahan ini: {msg}")
    ∷ (
      "errors.HOOK_MISSING",
      "Tabel ini memakai otomasi yang tidak tersedia di server ini. Hubungi administrator Anda.",
    )
    ∷ ("errors.ACTION_FAILED", "Aksi gagal dijalankan: {msg}")
    ∷ ("errors.ACTION_NOT_FOUND", "Aksi ini tidak ada lagi pada tabel. Muat ulang halaman.")
    ∷ (
      "errors.DRIFT",
      "Struktur tabel berubah di database. Minta administrator menyinkronkan ulang definisinya.",
    )
    ∷ (
      "errors.CONFLICT",
      "Data ini direferensikan oleh data lain sehingga tidak dapat diubah atau dihapus.",
    )
    ∷ ("errors.CONN", "Tidak dapat menghubungi database: {msg}")
    ∷ ("errors.FILTER_INVALID", "Ada filter yang tidak valid. Hapus chip filter lalu coba lagi.")
    ∷ (
      "errors.IMPORT_BAD_CSV",
      "File CSV tidak dapat dibaca. Periksa formatnya (maks 5 MB, 10.000 baris).",
    )
    ∷ ("errors.META_FILE_INVALID", "File definisi tidak valid.")
    ∷ ("errors.META_IMPORT_INVALID", "File definisi tidak dapat diimpor: {msg}")
    ∷ ("errors.RATE_LIMITED", "Terlalu banyak percobaan. Tunggu beberapa menit lalu coba lagi.")
    ∷ ("errors.GROUP_NAME_TAKEN", "Grup dengan nama tersebut sudah ada.")
    ∷ ("errors.FILTER_NAME_TAKEN", "Anda sudah punya filter tersimpan dengan nama tersebut.")
    ∷ ("errors.EXPORT_TOO_LARGE", "Hasil ekspor terlalu besar. Persempit filter lalu coba lagi.")
    ∷ ("errors.BULK_TOO_LARGE", "Terlalu banyak baris dipilih sekaligus. Pilih lebih sedikit.")
    ∷ ("errors.VALIDATION", "Ada nilai yang tidak valid: {msg}")
    ∷ ("errors.AUTH", "Sesi Anda telah berakhir. Silakan masuk kembali.")
    ∷ ("errors.FORBIDDEN", "Anda tidak memiliki akses ke fitur ini.")
    ∷ ("errors.NOT_FOUND", "Tidak ditemukan — mungkin sudah dihapus.")
    ∷ ("errors.INTERNAL", "Terjadi kesalahan. Coba lagi, atau hubungi administrator Anda.")
    ∷ ("errors.QUERY_INVALID", "Query SQL tidak valid: {msg}")
    ∷ ("errors.QUERY_READONLY", "View ini hanya-baca — dibangun dari query SQL.")
    ∷ ("errors.QUERY_NO_KEY", "View ini tidak punya kolom kunci, baris tunggal tidak bisa dibuka.")
    ∷ (
      "errors.QUERY_TIMEOUT", "Query terlalu lama dan dihentikan. Coba query yang lebih sederhana.",
    )
    ∷ ("nav.dashboard", "Dasbor")
    ∷ ("dash.title", "Dasbor")
    ∷ ("dash.empty", "Belum ada card statistik.")
    ∷ ("dash.emptyAdmin", "Belum ada card statistik — tambahkan untuk menampilkan agregat.")
    ∷ ("dash.addCard", "Tambah Card")
    ∷ ("card.label", "Label")
    ∷ ("card.labelPh", "mis. Pendapatan lunas")
    ∷ ("card.table", "Tabel")
    ∷ ("card.func", "Fungsi")
    ∷ ("card.column", "Kolom")
    ∷ ("card.filters", "Filter (opsional)")
    ∷ ("card.func.count", "Jumlah baris")
    ∷ ("card.func.sum", "Jumlah")
    ∷ ("card.func.avg", "Rata-rata")
    ∷ ("card.func.min", "Minimum")
    ∷ ("card.func.max", "Maksimum")
    ∷ ("card.save", "Simpan Card")
    ∷ ("card.edit", "Edit Card")
    ∷ ("card.delete", "Hapus card ini?")
    ∷ ("card.moveUp", "Naikkan")
    ∷ ("card.moveDown", "Turunkan")
    ∷ ("card.loading", "…")
    ∷ ("card.noTables", "Belum ada tabel.")
    ∷ ("card.of", "dari {table}")
    ∷ []
